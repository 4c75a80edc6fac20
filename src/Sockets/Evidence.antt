-- ===== src/Sockets/Evidence.antt =====
-- What `procSocketEvidence` of v2proxy/selector.go answers, and when it does not.
use v2pro_dock.Base.{
  ℕ, String, ◌≡◌, refl, ap, ◌∙◌, ◌≢◌, ◌⊎◌, inl, inr, Bool, true, false, Option, none, some, List,
  ◌∷◌, ◌++◌, arith, nat_eq, Option-cases, nat_equal, string_equal, length,
}
use v2pro_dock.Base.Dict.{Dict}
use v2pro_dock.Sockets.{
  TextTools, Row, Key, ◌>>=◌, Descriptor, parse_proc_net_tcp, read_tables, proc_own_inodes,
  foreign_established, proc_socket_evidence,
}
use v2pro_dock.Sockets.Clients.{AreClients, foreign_established-counts}

-- What reading and parsing one table gives.
abbrev pub table : TextTools → (String → Option (List String)) → String → Option (List Row)
table g read_file path = read_file path >>= parse_proc_net_tcp g

read_tables-step :
    (g : TextTools) (read_file : String → Option (List String)) (path : String)
    (paths : List String) (rows : List Row)
    → read_tables g read_file (path ∷ paths) rows
      ≡ (table g read_file path >>= (λ parsed. read_tables g read_file paths (rows ++ parsed)))
unfolding read_tables
read_tables-step g read_file path paths rows = elim (Option-cases (read_file path)) [
  | inl e ↦ rw e refl
  | inr (raw, e) ↦ rw e refl
]

-- The tables are known: both parse, the own sockets are listed, and the answer is the number of
-- the clients of the rows of both.
unfoldable pub IsAnswer :
    TextTools → Option (List Descriptor) → (String → Option (List String)) → ℕ → Option ℕ → Type 0
IsAnswer g entries read_file port answer =
    (own : Dict String Bool) × (tcp : List Row) × (tcp6 : List Row) × (clients : List Key)
    × ((proc_own_inodes entries ≡ some own)
        × ((table g read_file "/proc/net/tcp" ≡ some tcp)
            × ((table g read_file "/proc/net/tcp6" ≡ some tcp6)
                × (AreClients g (tcp ++ tcp6) own port clients
                    × (answer ≡ some (length clients))))))

-- Something of it is not known.
unfoldable pub IsUnknown :
    TextTools → Option (List Descriptor) → (String → Option (List String)) → Type 0
IsUnknown g entries read_file =
    (proc_own_inodes entries ≡ none)
    ⊎ ((table g read_file "/proc/net/tcp" ≡ none) ⊎ (table g read_file "/proc/net/tcp6" ≡ none))

-- Three fallible steps, and what their results are put together to.
abbrev pub chain {ℓ κ μ} :
    {A : Type ℓ} {B : Type κ} {C : Type μ}
    → Option A
    → Option B
    → Option B
    → (A → B → B → C)
    → Option C
chain o t u f = o >>= (λ a. t >>= (λ b. u >>= (λ c. some (f a b c))))

chain-cases {ℓ κ μ} :
    {A : Type ℓ} {B : Type κ} {C : Type μ} (o : Option A) (t u : Option B) (f : A → B → B → C)
    → ((chain o t u f ≡ none) × ((o ≡ none) ⊎ ((t ≡ none) ⊎ (u ≡ none))))
      ⊎ ((a : A) × (b : B) × (c : B) × ((o ≡ some a)
            × ((t ≡ some b) × ((u ≡ some c) × (chain o t u f ≡ some (f a b c))))))
chain-cases none t u f = inl (refl, inl refl)
chain-cases (some a) none u f = inl (refl, inr (inl refl))
chain-cases (some a) (some b) none f = inl (refl, inr (inr refl))
chain-cases (some a) (some b) (some c) f = inr (a, b, c, (refl, (refl, (refl, refl))))

-- Reading and parsing the tables one after the other is the chain of the three.
reads {ℓ κ} :
    {A : Type ℓ} {T : Type κ} (o : Option A) (p q : Option T) (parse : T → Option (List Row))
    (f : A → List Row → ℕ)
    → (o >>= (λ own.
        (p >>= (λ raw. parse raw >>= (λ x. q >>= (λ raw'. parse raw' >>= (λ y. some (x ++ y))))))
        >>= (λ rows. some (f own rows))))
      ≡ chain o (p >>= parse) (q >>= parse) (λ own x y. f own (x ++ y))
reads none p q parse f = refl
reads (some own) none q parse f = refl
reads {T = T} (some own) (some raw) q parse f = rest (parse raw) q
  where
    rest :
        (x : Option (List Row)) (q : Option T)
        → ((x >>= (λ x. q >>= (λ raw'. parse raw' >>= (λ y. some (x ++ y)))))
            >>= (λ rows. some (f own rows)))
          ≡ (x >>= (λ x. (q >>= parse) >>= (λ y. some (f own (x ++ y)))))
    rest none q = refl
    rest (some x) none = refl
    rest (some x) (some raw') = last (parse raw')
      where
        last :
            (y : Option (List Row))
            → ((y >>= (λ y. some (x ++ y))) >>= (λ rows. some (f own rows)))
              ≡ (y >>= (λ y. some (f own (x ++ y))))
        last none = refl
        last (some y) = refl

port_false : {n : ℕ} → n ≢ 0 → nat_eq n 0 ≡ false
port_false {n} h = ground (arith, h)

proc_socket_evidence-chain :
    (g : TextTools) (entries : Option (List Descriptor)) (read_file : String → Option (List String))
    (port : ℕ)
    → port ≢ 0
    → proc_socket_evidence g true entries read_file port
      ≡ chain
          (proc_own_inodes entries)
          (table g read_file "/proc/net/tcp")
          (table g read_file "/proc/net/tcp6")
          (λ own a b. foreign_established g (a ++ b) own port)
unfolding proc_socket_evidence read_tables
proc_socket_evidence-chain g entries read_file port nonzero = rw (port_false nonzero) (
    reads (proc_own_inodes entries) (read_file "/proc/net/tcp") (read_file "/proc/net/tcp6")
      (parse_proc_net_tcp g) (λ own rows. foreign_established g rows own port))

-- Whatever the tables and the descriptors read, for a port other than 0 on Linux: either the scan
-- answers nothing, and then the descriptors or one of the two tables cannot be read or parsed; or
-- all three are known, and the answer is the number of the clients: each is a connection with an
-- established row that touches the port, in either column of either table, and with no row that
-- belongs to one of the process's own sockets, and each counts once.
pub proc_socket_evidence-IsAnswer :
    (g : TextTools) (entries : Option (List Descriptor)) (read_file : String → Option (List String))
    (port : ℕ)
    → port ≢ 0
    → ((proc_socket_evidence g true entries read_file port ≡ none) × IsUnknown g entries read_file)
      ⊎ IsAnswer g entries read_file port (proc_socket_evidence g true entries read_file port)
unfolding IsAnswer IsUnknown
proc_socket_evidence-IsAnswer g entries read_file port nonzero =
    rw (proc_socket_evidence-chain g entries read_file port nonzero)
      (elim (chain-cases (proc_own_inodes entries) tcp tcp6
        (λ own a b. foreign_established g (a ++ b) own port)) [
          | inl unknown ↦ inl unknown
          | inr (own, a, b, (is_own, (is_tcp, (is_tcp6, answer)))) ↦
              let (ks, (clients, count)) = foreign_established-counts g (a ++ b) own port in
              inr (own, a, b, ks, (is_own, (is_tcp, (is_tcp6, (clients, answer ∙ ap some count)))))
        ])
  where
    tcp : Option (List Row)
    tcp = table g read_file "/proc/net/tcp"

    tcp6 : Option (List Row)
    tcp6 = table g read_file "/proc/net/tcp6"
