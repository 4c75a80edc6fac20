-- ===== src/Render/Dialled.antt =====
-- From a share link to the file that xray is started with: v2proxy/subscription.go and
-- v2proxy/selector.go together.
use v2pro_dock.Base.{
  ℕ, String, ◌≡◌, refl, sym, ap, ◌∙◌, Bool, some, nat_equal, string_equal, if_cases,
}
use v2pro_dock.Base.Int.{ℤ}
use mathlib.Core.Path.{subst}
use v2pro_dock.Json.{Json, obj, Fields, member, first}
use v2pro_dock.Stdlib.{Stdlib}
use v2pro_dock.Pool.{ProxyConfig}
use v2pro_dock.Link.{endpoint_key}
use v2pro_dock.Link.Dialled.{dial_target}
use v2pro_dock.Link.Accepted.{IsBuilt}
use v2pro_dock.Render.Config.{
  Setup, armed, upstream, full_config, Rendered, written, unwritable, render_xray_config,
  config_name,
}
use v2pro_dock.Render.Laws.{upstream-dial_target, first_outbound}

-- The file's text is a configuration whose first outbound dials the server of the endpoint `key`.
pub record DialsEndpoint (g : Stdlib) (text : String) (key : String) : Type 0 where
  pub full : Json
  pub first_out : Json
  pub server : String
  pub port : ℤ
  pub printed : text ≡ g.marshal full
  pub default_route : first (member "outbounds" (some full)) ≡ some first_out
  pub target : dial_target first_out ≡ some (server, port)
  pub identity : key ≡ endpoint_key g server port

IfWritten : Stdlib → String → Rendered → Type 0
IfWritten g k r = (path text : String) → r ≡ written path text → DialsEndpoint g text k

full_config-DialsEndpoint :
    (g : Stdlib) (e : Setup) (p : ℕ) (out : Fields) (server : String) (port : ℤ) (k : String)
    → dial_target (obj out) ≡ some (server, port)
    → k ≡ endpoint_key g server port
    → DialsEndpoint g (g.marshal (full_config g e p out)) k
full_config-DialsEndpoint g e p out server port k t i = record {
  full = full_config g e p out;
  first_out = obj (upstream g e (armed g e) out);
  server = server;
  port = port;
  printed = refl;
  default_route = first_outbound g e p out;
  target = upstream-dial_target g e (armed g e) out ∙ t;
  identity = i;
}

render_object :
    (g : Stdlib) (e : Setup) (can_write : String → Bool) (socks_port seq : ℕ) (out : Fields)
    (server : String) (port : ℤ) (k : String)
    → g.unmarshal (g.marshal (obj out)) ≡ some out
    → dial_target (obj out) ≡ some (server, port)
    → k ≡ endpoint_key g server port
    → IfWritten g k (render_xray_config g e can_write (g.marshal (obj out)) socks_port seq)
unfolding render_xray_config IfWritten
render_object g e can_write socks_port seq out server port k rt t i = rw rt (
    if_cases (IfWritten g k) (can_write (g.join_path e.xray_dir (config_name g socks_port seq))) _ _
      (λ _ path text q.
        subst (λ x. DialsEndpoint g x k) (same_text q)
          (full_config-DialsEndpoint g e socks_port out server port k t i))
      (λ _ path text q. elim (not_written q) [ ]))
  where
    same_text : {a b x y : String} → written a x ≡ written b y → x ≡ y
    same_text q = cc

    not_written : {a x : String} → unwritable ≡ written a x → ⊥
    not_written q = cc

-- Whatever relay, fragment, ports and name: the file that is written for a configuration that a link
-- gave is a printed JSON value whose first outbound, xray's default route, dials the server and port
-- of which the configuration's endpoint is the key. Assumed of the standard library: the outbound
-- reads back as it was printed.
pub render-DialsEndpoint :
    (g : Stdlib) (raw : String) (c : ProxyConfig) (b : IsBuilt g raw c) (out : Fields) (e : Setup)
    (can_write : String → Bool) (socks_port seq : ℕ) (path text : String)
    → b.out ≡ obj out
    → g.unmarshal (g.marshal (obj out)) ≡ some out
    → render_xray_config g e can_write c.xray_cfg socks_port seq ≡ written path text
    → DialsEndpoint g text c.endpoint
unfolding IfWritten
render-DialsEndpoint g raw c b out e can_write socks_port seq path text o rt w =
    render_object g e can_write socks_port seq out b.server b.port c.endpoint rt
      (sym (ap dial_target o) ∙ b.dials.target) b.identity path text
      (rw (← (b.printed ∙ ap g.marshal o)) w)
