-- ===== src/Render/Fragment.antt =====
-- What `chainFragment` of v2proxy/selector.go writes, and what it leaves.
use v2pro_dock.Base.{
  String, ◌≡◌, refl, ap, ◌∙◌, ◌≢◌, false, Option, none, some, arith, str_eq, eq_iff, nat_equal,
  string_equal,
}
use v2pro_dock.Json.{Json, str, obj, Fields, get, put, member}
use v2pro_dock.Json.Laws.{get-put_self, get-put_ne}
use v2pro_dock.Render.{chain_fragment, fragment_out_tag, or_empty}

-- Reading a member of an object or of a new one in its place is the same.
member-or_empty : (k : String) (v : Option Json) → get k (or_empty v) ≡ member k v
unfolding member get
member-or_empty k none = refl
member-or_empty k (some Json.null) = refl
member-or_empty k (some (Json.bool _)) = refl
member-or_empty k (some (Json.num _)) = refl
member-or_empty k (some (Json.float _)) = refl
member-or_empty k (some (str _)) = refl
member-or_empty k (some (Json.arr _)) = refl
member-or_empty k (some (obj fs)) = refl

-- The `sockopt` of an outbound's stream.
abbrev pub sockopt_of : Fields → Option Json
unfolding get member
sockopt_of out = member "sockopt" (get "streamSettings" out)

stream_of_chain :
    (out : Fields)
    → get "streamSettings" (chain_fragment out)
      ≡ some (
          obj (
            put "sockopt"
              (obj (
                put "dialerProxy"
                  (str fragment_out_tag)
                  (or_empty (get "sockopt" (or_empty (get "streamSettings" out))))))
              (or_empty (get "streamSettings" out))))
unfolding chain_fragment
stream_of_chain out = get-put_self "streamSettings" _ out

sockopt_of_chain :
    (out : Fields)
    → sockopt_of (chain_fragment out)
      ≡ some (
          obj (
            put "dialerProxy"
              (str fragment_out_tag)
              (or_empty (get "sockopt" (or_empty (get "streamSettings" out))))))
unfolding sockopt_of member
sockopt_of_chain out =
    ap (member "sockopt") (stream_of_chain out)
    ∙ get-put_self "sockopt" _ (or_empty (get "streamSettings" out))

differs : (a k : String) → k ≢ a → str_eq a k ≡ false
differs a k h = ground (arith, eq_iff a k)

-- Chaining names the fragment carrier as the dialer's proxy, and leaves every other key of the
-- socket options, of the stream and of the outbound as it was.
pub chain_fragment_lem :
    (out : Fields)
    → (member "dialerProxy" (sockopt_of (chain_fragment out)) ≡ some (str fragment_out_tag))
      × ((k : String)
          → k ≢ "dialerProxy"
          → member k (sockopt_of (chain_fragment out)) ≡ member k (sockopt_of out))
      × ((k : String)
          → k ≢ "sockopt"
          → member k (get "streamSettings" (chain_fragment out))
            ≡ member k (get "streamSettings" out))
      × ((k : String) → k ≢ "streamSettings" → get k (chain_fragment out) ≡ get k out)
unfolding member get chain_fragment put
chain_fragment_lem out = (
  ap (member "dialerProxy") (sockopt_of_chain out) ∙ get-put_self "dialerProxy" _ so,
  λ k h.
      ap (member k) (sockopt_of_chain out)
      ∙ get-put_ne "dialerProxy" k _ so (differs "dialerProxy" k h)
      ∙ member-or_empty k (get "sockopt" (or_empty (get "streamSettings" out)))
      ∙ ap (member k) (member-or_empty "sockopt" (get "streamSettings" out)),
  λ k h.
      ap (member k) (stream_of_chain out)
      ∙ get-put_ne "sockopt" k _ (or_empty (get "streamSettings" out)) (differs "sockopt" k h)
      ∙ member-or_empty k (get "streamSettings" out),
  λ k h. get-put_ne "streamSettings" k _ out (differs "streamSettings" k h),
)
  where
    so : Fields
    so = or_empty (get "sockopt" (or_empty (get "streamSettings" out)))
