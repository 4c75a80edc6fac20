-- ===== src/Sockets.antt =====
-- The socket tables of /proc, and the count of the clients of a port: the part of
-- v2proxy/selector.go from `procEndpoint` to `procSocketEvidence`. A file, the directory of the
-- descriptors and a link in it are what reading them gives; a read that fails is `none`.
pub mod Clients
pub mod Ends
pub mod Evidence
pub mod Tests
use Prim.Native.String.{◌++◌ as append, len}
use text.Mathlib.Text.{starts_with, get?}
use v2pro_dock.Base.{
  ℕ, ◌+◌, ◌-◌, String, ◌≡◌, ◌↔◌, Bool, true, false, not, ◌&&◌, ◌||◌, Option, none, some, List, [],
  ◌∷◌, ◌++◌, arith, str_eq, eq_iff, ltb, nat_eq, if◌then◌else◌, Eq, nat_equal, string_equal, maybe,
  length, get_elem?, is_some,
}
use v2pro_dock.Base.Dict.{Dict, lookup, insert}
use v2pro_dock.Stdlib.{before_last, trim_suffix}

-- The functions of Go's library that read a table: `strings.Fields`, `strings.ToUpper`,
-- `strconv.ParseUint` in base 16 with a bit size, `strconv.Itoa`, and `>` on strings.
pub record TextTools : Type 0 where
  pub fields : String → List String
  pub to_upper : String → String
  pub parse_hex : ℕ → String → Option ℕ
  pub itoa : ℕ → String
  pub greater : String → String → Bool

abbrev pub tcp_state_established : String
tcp_state_established = "01"

abbrev pub v4_mapped_prefix : String
v4_mapped_prefix = "0000000000000000FFFF0000"

abbrev pub proc_net_tcp_files : List String
proc_net_tcp_files = "/proc/net/tcp" ∷ "/proc/net/tcp6" ∷ []

-- `v, ok := f()` with `if !ok { return none }`
infixl 5 ◌>>=◌
abbrev pub ◌>>=◌ {ℓ κ} : {A : Type ℓ} {B : Type κ} → Option A → (A → Option B) → Option B
o >>= f = maybe o none f

-- `procEndpoint`
pub record Endpoint : Type 0 where
  pub addr : String
  pub port : ℕ

-- `procEndpoint.String`
unfoldable pub endpoint_string : TextTools → Endpoint → String
endpoint_string g e = append e.addr (append ":" (g.itoa e.port))

-- `procConn`
pub record Row : Type 0 where
  pub local : Endpoint
  pub remote : Endpoint
  pub state : String
  pub inode : String

-- The switch on the length of the address.
unfoldable pub canonical_addr : String → Option String
canonical_addr addr =
    if nat_eq (len addr) 8
    then some addr
    else if nat_eq (len addr) 32
    then if starts_with addr v4_mapped_prefix
      then get? addr (len addr - 8) (len addr)
      else some addr
    else none

-- `parseProcEndpoint`; 58 is the colon.
unfoldable pub parse_proc_endpoint : TextTools → String → Option Endpoint
parse_proc_endpoint g field = elim (before_last 58 field) [
  | none ↦ none
  | some before ↦ do
    after ← get? field (len before + 1) (len field)
    port ← g.parse_hex 32 after
    addr ← canonical_addr (g.to_upper before)
    some (record { addr = addr; port = port })
]

-- `len(state) == 2` and it is a hexadecimal number of eight bits.
abbrev pub is_state : TextTools → String → Bool
is_state g s = is_some (g.parse_hex 8 s) && nat_eq (len s) 2

-- `parseProcRow`
unfoldable pub parse_proc_row : TextTools → List String → Option Row
parse_proc_row g fs = if ltb (length fs) 10 then none else do
  first ← get_elem? fs 1
  local ← parse_proc_endpoint g first
  second ← get_elem? fs 2
  remote ← parse_proc_endpoint g second
  state ← get_elem? fs 3
  inode ← get_elem? fs 9
  elim (is_state g state) [
    | true ↦ some (record { local = local; remote = remote; state = state; inode = inode })
    | false ↦ none
  ]

-- The loop over the lines: those that are left, was the header read, and the rows so far.
unfoldable pub rows_from : TextTools → List String → Bool → List Row → Option (List Row)
rows_from g [] headed rows = if headed then some rows else none
rows_from g (line ∷ lines) headed rows = elim (g.fields line) [
  | [] ↦ rows_from g lines headed rows
  | f ∷ fs ↦ elim headed [
    | false ↦ elim (str_eq f "sl") [ true ↦ rows_from g lines true rows | false ↦ none ]
    | true ↦ elim (parse_proc_row g (f ∷ fs)) [
      | none ↦ none
      | some row ↦ rows_from g lines true (rows ++ (row ∷ []))
    ]
  ]
]

-- `parseProcNetTCP`, on the lines of the table.
unfoldable pub parse_proc_net_tcp : TextTools → List String → Option (List Row)
parse_proc_net_tcp g lines = rows_from g lines false []

-- `[2]string`
abbrev pub Key : Type 0
Key = String × String

-- The order of the two ends: `connection` of `foreignEstablished`.
unfoldable pub connection : TextTools → Row → Key
connection g r =
    let a = endpoint_string g r.local in
    let b = endpoint_string g r.remote in if g.greater a b then (b, a) else (a, b)

-- `==` on `[2]string`
abbrev pub key_same : Key → Key → Bool
key_same (a, b) (c, d) = str_eq a c && str_eq b d

pub key_same_iff : (x y : Key) → (key_same x y ≡ true) ↔ (x ≡ y)
key_same_iff (a, b) (c, d) = ground (arith, eq_iff a c, eq_iff b d)

instance abbrev pub key_equal : Eq Key
key_equal = record { same = key_same; same_iff = key_same_iff }

-- `m[k]` of a `map[K]bool`
abbrev pub marked {ℓ} : {K : Type ℓ} ⦃e : Eq K⦄ → K → Dict K Bool → Bool
marked k m = maybe (lookup k m) false (λ b. b)

-- The loop that fills `owned`.
unfoldable pub owned_from : TextTools → Dict String Bool → List Row → Dict Key Bool → Dict Key Bool
owned_from g own [] m = m
owned_from g own (r ∷ rows) m =
    owned_from g own rows (if marked r.inode own then insert (connection g r) true m else m)

-- `n` and `seen`
pub record Tally : Type 0 where
  pub n : ℕ
  pub seen : Dict Key Bool

-- The row is of an established connection that touches the port.
unfoldable pub touches : ℕ → Row → Bool
touches port r =
    str_eq r.state tcp_state_established && (nat_eq r.local.port port || nat_eq r.remote.port port)

-- One round of the loop that counts.
unfoldable pub count_row : TextTools → ℕ → Dict Key Bool → Row → Tally → Tally
count_row g port owned r t =
    if not (touches port r)
    then t
    else if marked (connection g r) owned || marked (connection g r) t.seen
    then t
    else record { n = t.n + 1; seen = insert (connection g r) true t.seen }

unfoldable pub count_rows : TextTools → ℕ → Dict Key Bool → List Row → Tally → Tally
count_rows g port owned [] t = t
count_rows g port owned (r ∷ rows) t = count_rows g port owned rows (count_row g port owned r t)

-- `foreignEstablished`
unfoldable pub foreign_established : TextTools → List Row → Dict String Bool → ℕ → ℕ
foreign_established g rows own port =
    (count_rows g port (owned_from g own rows []) rows (record { n = 0; seen = [] })).n

-- What `os.Readlink` gives.
pub data Descriptor : Type 0 where
  target : String → Descriptor
  gone failed : Descriptor

-- The loop of `procOwnInodes` over the descriptors.
unfoldable pub own_from : List Descriptor → Dict String Bool → Option (Dict String Bool)
own_from [] own = some own
own_from (gone ∷ links) own = own_from links own
own_from (failed ∷ links) own = none
own_from (target t ∷ links) own = own_from links (
    if starts_with t "socket:["
    then maybe (get? t 8 (len t)) own (λ inode. insert (trim_suffix inode "]") true own)
    else own)

-- `procOwnInodes`
unfoldable pub proc_own_inodes : Option (List Descriptor) → Option (Dict String Bool)
proc_own_inodes entries = do links ← entries; own_from links []

-- The loop of `procSocketEvidence` over the two tables.
unfoldable pub read_tables :
    TextTools → (String → Option (List String)) → List String → List Row → Option (List Row)
read_tables g read_file [] rows = some rows
read_tables g read_file (path ∷ paths) rows = do
  raw ← read_file path
  parsed ← parse_proc_net_tcp g raw
  read_tables g read_file paths (rows ++ parsed)

-- `procSocketEvidence`: without an answer it is unknown. A port is never negative here.
unfoldable pub proc_socket_evidence :
    TextTools → Bool → Option (List Descriptor) → (String → Option (List String)) → ℕ → Option ℕ
proc_socket_evidence g linux entries read_file port =
    if not linux || nat_eq port 0 then some 0 else do
      own ← proc_own_inodes entries
      rows ← read_tables g read_file proc_net_tcp_files []
      some (foreign_established g rows own port)
