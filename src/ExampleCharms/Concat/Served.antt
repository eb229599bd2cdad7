-- ===== src/ExampleCharms/Concat/Served.antt =====
-- example-charms/concat/http.go: the listener, and what the server answers after a Set.
use gocharm.Base.{String, ℕ, ◌≡◌, ◌≢◌, refl, Option, none, some, arith, ◌==◌}
use gocharm.Base.{ok, err, panic, Bool-cases, Result-cases, inl, inr, ◌>>◌}
use gocharm.Hook.Registry.{Unit₀}
use gocharm.ExampleCharms.Concat.Server.{opened}
use gocharm.Base.{Bool, true, false, if◌then◌else◌, Result}
use gocharm.Charmbits.HttpService.Restored.{IsFiles}
use gocharm.Hook.State.{Files}
use gocharm.ExampleCharms.Concat.{ServerState}
use gocharm.ExampleCharms.Concat.Server.{ConcatServer, Network, StateCodec, set, close_old}
use gocharm.ExampleCharms.Concat.Server.{
  open_missing, listen_new, record_state, address, handle_set,
}
use gocharm.ExampleCharms.Concat.Server.{save_state, load_state, state_path, serve_http, content}

-- A listener is on the address that was asked for.
pub record IsNetwork {W Listener : Type 0} (net : Network W Listener) (addr_of : Listener → String)
    : Type 0 where
  pub listens : (a : String) (l : Listener) (w w' : W) → net.listen a w ≡ (ok l, w') → addr_of l ≡ a

module _ {Listener : Type 0} where
  -- A listener that there is listens on the port, which is one.
  abbrev pub On : (Listener → String) → ℕ → Option Listener → Type 0
  On addr_of port o = (l : Listener) → o ≡ some l → (port ≢ 0) × (addr_of l ≡ address port)

  -- Where a set ends: what is on record after a success, and after anything else.
  abbrev pub Settled :
      ServerState → ConcatServer Listener → Result Unit₀ → ConcatServer Listener → Type 0
  Settled p s (ok _) s' = (s'.state ≡ p) × (p.port ≢ 0 → s'.listener ≢ none)
  Settled p s _ s' = s'.state ≡ s.state

module _ {W Listener : Type 0} (net : Network W Listener) (addr_of : Listener → String)
    (lawful : IsNetwork net addr_of) where
  close_old-On :
      (p : ServerState) (s : ConcatServer Listener) (w : W)
      → On addr_of s.state.port s.listener
      → (On addr_of p.port (close_old net p (s, w)).0.listener)
        × ((close_old net p (s, w)).0.state ≡ s.state)
        × (On addr_of s.state.port (close_old net p (s, w)).0.listener)
  close_old-On p s w h = elim (Bool-cases (p.port == 0)) [
    | inl e ↦ (λ l k. ground arith, ground arith, λ l k. ground arith)
    | inr e ↦ elim (Bool-cases (p.port == s.state.port)) [
      | inl f ↦ (λ l k. ground (arith, h l), ground arith, λ l k. ground (arith, h l))
      | inr f ↦ (λ l k. ground arith, ground arith, λ l k. ground arith)
    ]
  ]

  -- After the second part of set, on each of its results.
  abbrev Opened : ℕ → ConcatServer Listener → Result Unit₀ → ConcatServer Listener → Type 0
  Opened port s (ok _) s' =
      (On addr_of port s'.listener) × (s'.state ≡ s.state) × (port ≢ 0 → s'.listener ≢ none)
  Opened port s (err e) s' = s' ≡ s
  Opened port s (panic e) s' = s' ≡ s

  opened-Opened :
      (port : ℕ) (r : Result Listener) (s : ConcatServer Listener) (w : W)
      → port ≢ 0
      → ((l : Listener) → r ≡ ok l → addr_of l ≡ address port)
      → Opened port s (opened net port r (s, w)).0 (opened net port r (s, w)).1.0
  opened-Opened port (ok l) s w given there =
      (λ l' k. ground (arith, there l), refl, λ _ k. ground arith)
  opened-Opened port (err e) s w given there = refl
  opened-Opened port (panic e) s w given there = refl

  listen_unless-Opened :
      (b : Bool) (port : ℕ) (s : ConcatServer Listener) (w : W)
      → (port == 0) ≡ b
      → s.listener ≡ none
      → let (r, (s', w')) = if b then (ok tt, (s, w)) else listen_new net port (s, w) in
        Opened port s r s'
  listen_unless-Opened true port s w zero_port missing =
      (λ l k. ground arith, refl, λ given k. ground arith)
  listen_unless-Opened false port s w given missing =
      let (r, w') = net.listen (address port) w in
      opened-Opened port r s w' (λ z. ground arith)
        (λ l k. lawful.listens (address port) l w w' (ground arith))

  open_missing-Opened :
      (o : Option Listener) (port : ℕ) (s : ConcatServer Listener) (w : W)
      → s.listener ≡ o
      → On addr_of port o
      → Opened port s (open_missing net o port (s, w)).0 (open_missing net o port (s, w)).1.0
  open_missing-Opened (some l) port s w e h =
      (λ l' k. ground (arith, h l'), refl, λ given k. ground arith)
  open_missing-Opened none port s w e h = listen_unless-Opened (port == 0) port s w refl e

  recorded-Settled :
      (p : ServerState) (s closed s' : ConcatServer Listener) (r : Result Unit₀) (w : W)
      → closed.state ≡ s.state
      → On addr_of s.state.port closed.listener
      → Opened p.port closed r s'
      → let (r', (s'', w')) = ((λ _. (r, (s', w))) >> record_state net p) (s', w) in
        On addr_of s''.state.port s''.listener × Settled p s r' s''
  recorded-Settled p s closed s' (ok u) w e on (h, same, there) = (h, (refl, there))
  recorded-Settled p s closed s' (err x) w e on h = (λ l k. ground (arith, on l), ground arith)
  recorded-Settled p s closed s' (panic x) w e on h = (λ l k. ground (arith, on l), ground arith)

  -- Where a listener is on the address that was asked for: from a server whose listener, if it
  -- has one, is on the port of its state, which is not 0, a set leads to such a server again,
  -- also where it fails. After a success the new state is on record, with a listener where its
  -- port is not 0; after a failure the old state is on record.
  pub set-Settled :
      (p : ServerState) (s : ConcatServer Listener) (w : W)
      → On addr_of s.state.port s.listener
      → let (r, (s', w')) = set net p (s, w) in
        On addr_of s'.state.port s'.listener × Settled p s r s'
  unfolding set
  set-Settled p s w h =
      let (closed, w₁) = close_old net p (s, w) in
      let (on, same, before) = close_old-On p s w h in
      let (r, (s', w₂)) = open_missing net closed.listener p.port (closed, w₁) in
      recorded-Settled p s closed s' r w₂ same before
        (open_missing-Opened closed.listener p.port closed w₁ refl on)

-- What json.Marshal has made of a state is read as that state.
pub record IsCodec (codec : StateCodec) : Type 0 where
  pub decodes : (p : ServerState) (s : String) → codec.marshal p ≡ ok s → codec.unmarshal s ≡ ok p

module _ {W Listener : Type 0} (net : Network W Listener) (codec : StateCodec) (files : Files W)
    (dir_of : String → String) where
  -- What a server is known by: what it answers, and what one that starts on its directory loads.
  abbrev pub IsKept : ServerState → ConcatServer Listener → W → Type 0
  IsKept p s w =
      (serve_http s "/val" "GET" ≡ content p.val)
      × (load_state net codec files dir_of s.state_dir w ≡ (ok p, w))

module _ {W Listener : Type 0} (net : Network W Listener) (codec : StateCodec) (files : Files W)
    (dir_of : String → String) (coded : IsCodec codec) (lawful : IsFiles files) where
  load_state-save_state :
      (dir : String) (p : ServerState) (w w' : W)
      → save_state net codec files dir_of dir p w ≡ (ok tt, w')
      → load_state net codec files dir_of dir w' ≡ (ok p, w')
  unfolding save_state load_state
  load_state-save_state dir p w w' h = elim (Result-cases (codec.marshal p)) [
    | inl (text, e) ↦
        let w₁ = (files.mkdir_all (dir_of (state_path dir)) w).1 in
        ground (arith, coded.decodes p text e, lawful.reads (state_path dir) text w₁ w')
    | inr (inl (x, e)) ↦ absurd (ground arith)
    | inr (inr (x, e)) ↦ absurd (ground arith)
  ]

  set-state :
      (p : ServerState) (s s' : ConcatServer Listener) (w w' : W)
      → set net p (s, w) ≡ (ok tt, (s', w'))
      → s'.state ≡ p
  unfolding set
  set-state p s s' w w' h = ground arith

  pub handle_set-IsKept :
      (p : ServerState) (s s' : ConcatServer Listener) (w w' : W)
      → handle_set net codec files dir_of p (s, w) ≡ (ok tt, (s', w'))
      → IsKept net codec files dir_of p s' w'
  unfolding handle_set serve_http
  handle_set-IsKept p s s' w w' h =
      let (s₁, w₁) = (set net p (s, w)).1 in
      let same : s₁.state ≡ p = set-state p s s₁ w w₁ (ground arith) in
      (ground arith, ground (arith, load_state-save_state s₁.state_dir p w₁ w'))
