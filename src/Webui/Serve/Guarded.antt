-- ===== src/Webui/Serve/Guarded.antt =====
-- What a request must be to change the agent through the config UI.
use lockping_agent.Base64.{raw_url, encode}
use lockping_agent.Prelude.{
  ℕ, true, some, ◌≡◌, ◌⊎◌, inl, inr, refl, arith, Bytes, codes, bytes_eq, bytes_eq_iff, Bool-cases,
  length, Result, ok,
}
use lockping_agent.Prelude.Int.{ℤ, ◌<ℤ◌, ◌+ℤ◌, -ℤ_parts}
use lockping_agent.Session.{Controller}
use lockping_agent.Secure.Pairing.{window_ttl, new_window, encode_pair_code}
use lockping_agent.Gateway.{Outside, open_pairing, pairing}
use lockping_agent.Webui.Host.{is_local}
use lockping_agent.Webui.Serve.{
  Method, post, Request, Response, Route, Agent, Server, route, guarded, dispatch, handler, reply,
  pair, code_json, qr_of, text, qr, pair_route, unpair_route, autostart_route, stop_route,
  page_route, logo_route, state_route, qr_route, not_allowed,
}

module _ {A S : Type 0} (server : Server A) (sess : Controller S) where
  guarded_cases :
      (r : Request) (a : Agent A) (next : Agent A × Response)
      → ((guarded server sess r a next).0 ≡ a) ⊎ (r.token ≡ server.csrf_token)
  unfolding guarded
  guarded_cases r a next = elim (Bool-cases (bytes_eq r.token server.csrf_token)) [
    | inl same ↦ inr ((bytes_eq_iff r.token server.csrf_token).0 same)
    | inr other ↦ inl (rw other refl)
  ]

  dispatch_cases :
      (rt : Route) (a : Agent A) (s : S) (r : Request) (o : Outside)
      → ((dispatch server sess rt a s r o).0 ≡ a) ⊎ (r.token ≡ server.csrf_token)
  unfolding dispatch
  dispatch_cases page_route a s r o = inl refl
  dispatch_cases logo_route a s r o = inl refl
  dispatch_cases state_route a s r o = inl refl
  dispatch_cases qr_route a s r o = inl refl
  dispatch_cases pair_route a s r o = guarded_cases r a _
  dispatch_cases unpair_route a s r o = guarded_cases r a _
  dispatch_cases autostart_route a s r o = guarded_cases r a _
  dispatch_cases stop_route a s r o = guarded_cases r a _
  dispatch_cases not_allowed a s r o = inl refl

  not_post :
      (m : Method) (path : Bytes) (a : Agent A) (s : S) (r : Request) (o : Outside)
      → (m ≡ post) ⊎ ((dispatch server sess (route m path) a s r o).0 ≡ a)
  unfolding route dispatch
  not_post Method.get path a s r o = inr (ground arith)
  not_post Method.head path a s r o = inr (ground arith)
  not_post Method.post path a s r o = inl refl
  not_post Method.other_method path a s r o = inr refl

  -- A request leaves the agent as it was, whatever it asks for, or it is a POST to a local host
  -- name that carries the token of this process's own page.
  pub handler_guarded :
      (a : Agent A) (s : S) (r : Request) (o : Outside)
      → ((handler server sess a s r o).0 ≡ a)
        ⊎ ((is_local r.host ≡ true) × (r.method ≡ post) × (r.token ≡ server.csrf_token))
  unfolding handler
  handler_guarded a s r o = elim (Bool-cases (is_local r.host)) [
    | inr foreign ↦ inl (ground arith)
    | inl local ↦ elim (not_post r.method r.path a s r o) [
      | inr same ↦ inl (ground arith)
      | inl is_post ↦ elim (dispatch_cases (route r.method r.path) a s r o) [
        | inl same ↦ inl (ground arith)
        | inr token ↦ inr (local, is_post, token)
      ]
    ]
  ]

  shown_until :
      (a : Agent A) (i : ℕ) (code : Bytes) (expires now : ℤ)
      → a.gw.window ≡ some i
      → a.gw.code ≡ code
      → a.gw.expires ≡ expires
      → (now <ℤ expires → qr server sess a now ≡ reply 200 (qr_of code))
        × (¬ (now <ℤ expires)
            → qr server sess a now ≡ reply 404 (text (codes "geen actieve pairing")))
  unfolding qr pairing
  shown_until a i code expires now opened same until =
      let parts = -ℤ_parts a.gw.expires now in (λ before. ground arith, λ over. ground arith)

  pair_opens :
      (a : Agent A) (o : Outside) (secret : Bytes) (random : Result Bytes)
      → random ≡ ok secret
      → o.random ≡ random
      → (code : Bytes) × ((pair server sess a o).1 ≡ reply 200 (code_json code))
        × ((pair server sess a o).0.gw.window ≡ some (length a.gw.windows))
        × ((pair server sess a o).0.gw.code ≡ code)
        × ((pair server sess a o).0.gw.expires ≡ o.now' +ℤ window_ttl)
  unfolding pair open_pairing new_window
  pair_opens a o secret random is_ok same = (
    encode_pair_code a.gw.relay_url a.gw.agent_id (encode raw_url secret),
    ground arith,
    ground arith,
    ground arith,
    ground arith,
  )

  -- After a pairing window was opened the QR shows its code, and no other, until five minutes
  -- after the second reading; at that instant and later it shows none.
  pub qr-pair :
      (a : Agent A) (o : Outside) (secret : Bytes) (now : ℤ)
      → o.random ≡ ok secret
      → (code : Bytes) × ((pair server sess a o).1 ≡ reply 200 (code_json code))
        × (now <ℤ o.now' +ℤ window_ttl
            → qr server sess (pair server sess a o).0 now ≡ reply 200 (qr_of code))
        × (¬ (now <ℤ o.now' +ℤ window_ttl)
            → qr server sess (pair server sess a o).0 now
              ≡ reply 404 (text (codes "geen actieve pairing")))
  qr-pair a o secret now random =
      let (code, made, opened, same, until) = pair_opens a o secret (ok secret) refl random in
      let (shown, over) = shown_until (pair server sess a o).0 _ code _ now opened same until in
      (code, made, shown, over)
