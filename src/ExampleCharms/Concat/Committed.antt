-- ===== src/ExampleCharms/Concat/Committed.antt =====
-- example-charms/concat/runhook.go: the charm's state on record changes only once everything has been
-- notified.
use gocharm.Base.{ℕ, ◌≡◌, refl, ap, sym, ◌∙◌, ok, err, panic, true, false, Bool, arith, str_eq_iff}
use gocharm.Base.{Act, Result, Error, ◌>>=◌, ◌>>◌, wrap, outside, own, masked}
use gocharm.Base.{noted}
use gocharm.Charmbits.HttpRelation.{http_port}
use gocharm.Charmbits.Service.{Service, Encoding, OsService, OsServiceParams, start}
use gocharm.Charmbits.Service.Call.{Rpc, started, call}
use gocharm.Hook.Context.{Tools}
use gocharm.Hook.Environment.{state_dir}
use gocharm.Hook.Juju.{Juju}
use gocharm.Hook.Registry.{Unit₀}
use gocharm.Hook.State.{Files}
use gocharm.ExampleCharms.Concat.{Concatenator, ServerState, on_service, ensure_started, send_state}
use gocharm.ExampleCharms.Concat.{notify_server, notify_downstream, commit, finally, same_state}
use gocharm.ExampleCharms.Concat.{note, LocalState, start_in, start_unless, settle, shown}
use gocharm.Base.{String, [], ◌∷◌}

-- Where it succeeds the new state is on record, and otherwise the old one; but for the service,
-- nothing else has changed.
abbrev pub After : Concatenator → Result Unit₀ → Concatenator → Type 0
After c (ok _) c' = c' ≡ record c { svc = c'.svc; state = c.new_state }
After c _ c' = c' ≡ record c { svc = c'.svc }

After-kept :
    (c c' c'' : Concatenator) (r : Result Unit₀)
    → c' ≡ record c { svc = c'.svc }
    → After c' r c''
    → After c r c''
After-kept c c' c'' (ok u) h k =
    k ∙ ap (λ (x : Concatenator). record x { svc = c''.svc; state = x.new_state }) h
After-kept c c' c'' (err e) h k = k ∙ ap (λ (x : Concatenator). record x { svc = c''.svc }) h
After-kept c c' c'' (panic e) h k = k ∙ ap (λ (x : Concatenator). record x { svc = c''.svc }) h

-- Where the states agree there is nothing to commit.
After-same : (c : Concatenator) (r : Result Unit₀) → c.state ≡ c.new_state → After c r c
After-same c (ok u) h = ap (λ s. record c { state = s }) h
After-same c (err e) h = refl
After-same c (panic e) h = refl

module _ {W : Type 0} where
  -- All but the service is as before.
  abbrev pub Keeps : {A : Type 0} → Act (Concatenator × W) A → Type 0
  Keeps m = (c : Concatenator) (w : W) → (m (c, w)).1.0 ≡ record c { svc = (m (c, w)).1.0.svc }

  pub Keeps-ok :
      {A : Type 0} (m : Act (Concatenator × W) A) (c c' : Concatenator) (w w' : W) (a : A)
      → Keeps m
      → m (c, w) ≡ (ok a, (c', w'))
      → c' ≡ record c { svc = c'.svc }
  Keeps-ok {A} m c c' w w' a h e =
      sym (ap (λ x. x.1.0) e)
      ∙ h c w
      ∙ ap (λ (x : Result A × (Concatenator × W)). record c { svc = x.1.0.svc }) e

  bound-Keeps :
      {A B : Type 0} (r : Result A) (f : A → Act (Concatenator × W) B) (c c' : Concatenator) (w : W)
      → c' ≡ record c { svc = c'.svc }
      → ((a : A) → Keeps (f a))
      → let c'' = (((λ s. (r, s)) >>= f) (c', w)).1.0 in c'' ≡ record c { svc = c''.svc }
  bound-Keeps (ok a) f c c' w h k =
      k a c' w ∙ ap (λ (x : Concatenator). record x { svc = (f a (c', w)).1.0.svc }) h
  bound-Keeps (err e) f c c' w h k = h
  bound-Keeps (panic e) f c c' w h k = h

  bind-Keeps :
      {A B : Type 0} (m : Act (Concatenator × W) A) (f : A → Act (Concatenator × W) B)
      → Keeps m
      → ((a : A) → Keeps (f a))
      → Keeps (m >>= f)
  bind-Keeps m f h k c w = bound-Keeps (m (c, w)).0 f c (m (c, w)).1.0 (m (c, w)).1.1 (h c w) k

  wrapped_state :
      {A : Type 0} (f : Error → Error) (r : Result A) (s : Concatenator × W)
      → (wrap {W = Concatenator × W} f (λ s'. (r, s')) s).1.0 ≡ s.0
  wrapped_state f (ok a) s = refl
  wrapped_state f (err e) s = refl
  wrapped_state f (panic e) s = refl

  wrap-Keeps :
      {A : Type 0} (f : Error → Error) (m : Act (Concatenator × W) A) → Keeps m → Keeps (wrap f m)
  wrap-Keeps f m h c w =
      let (r, s) = m (c, w) in
      let same = wrapped_state f r s in
      same ∙ h c w ∙ ap (λ (x : Concatenator). record c { svc = x.svc }) (sym same)

  on_service-Keeps : {A : Type 0} (m : Act (Service × W) A) → Keeps (on_service m)
  on_service-Keeps m c w = refl

  outside-Keeps : {A : Type 0} (m : Act W A) → Keeps (outside m)
  outside-Keeps m c w = refl

  own-Keeps : Keeps own
  own-Keeps c w = refl

  abbrev Commits : Act (Concatenator × W) Unit₀ → Type 0
  Commits m = (c : Concatenator) (w : W) → After c (m (c, w)).0 (m (c, w)).1.0

  commit-Commits : Commits commit
  commit-Commits c w = refl

  bound-Commits :
      {A : Type 0} (r : Result A) (k : Act (Concatenator × W) Unit₀) (c c' : Concatenator) (w : W)
      → c' ≡ record c { svc = c'.svc }
      → Commits k
      → let (r', (c'', w')) = ((λ s. (r, s)) >> k) (c', w) in After c r' c''
  bound-Commits (ok a) k c c' w h l = After-kept c c' (k (c', w)).1.0 (k (c', w)).0 h (l c' w)
  bound-Commits (err e) k c c' w h l = h
  bound-Commits (panic e) k c c' w h l = h

  then-Commits :
      {A : Type 0} (m : Act (Concatenator × W) A) (k : Act (Concatenator × W) Unit₀)
      → Keeps m
      → Commits k
      → Commits (m >> k)
  then-Commits m k h l c w = bound-Commits (m (c, w)).0 k c (m (c, w)).1.0 (m (c, w)).1.1 (h c w) l

same_state-eq : (s t : LocalState) → same_state s t ≡ true → s ≡ t
same_state-eq s t h = ground (arith, str_eq_iff s.val t.val)

module _ {W Client : Type 0} (tools : Tools W) (juju : Juju) (enc : Encoding)
    (new_service : OsServiceParams → Act W (OsService W)) (files : Files W)
    (rpc : Rpc W Client ServerState Unit₀) (retries : ℕ) where
  start_in-Keeps :
      (dir : String) → Keeps (start_in tools juju enc new_service files rpc retries dir)
  start_in-Keeps dir =
      let start_service = start juju tools enc new_service files (dir ∷ []) in
      wrap-Keeps masked (on_service start_service) (on_service-Keeps start_service)

  start_unless-Keeps :
      (b : Bool) → Keeps (start_unless tools juju enc new_service files rpc retries b)
  start_unless-Keeps true c w = refl
  start_unless-Keeps false c w =
      let starting = start_in tools juju enc new_service files rpc retries in
      bind-Keeps (outside (state_dir juju c.ctxt)) starting (outside-Keeps (state_dir juju c.ctxt))
        start_in-Keeps c w

  pub ensure_started-Keeps : Keeps (ensure_started tools juju enc new_service files rpc retries)
  unfolding ensure_started
  ensure_started-Keeps =
      let running = started juju tools enc new_service in
      bind-Keeps (on_service running) (start_unless tools juju enc new_service files rpc retries)
        (on_service-Keeps running) start_unless-Keeps

  send_state-Keeps :
      (c : Concatenator) → Keeps (send_state tools juju enc new_service files rpc retries c)
  send_state-Keeps c =
      let sending =
        call juju tools enc new_service rpc retries "ConcatServer.Set"
          (record { val = c.new_state.val; port = http_port c.http }) in
      wrap-Keeps (λ e. noted e "cannot set state in server" []) (on_service sending)
        (on_service-Keeps sending)

  pub notify_server-Keeps : Keeps (notify_server tools juju enc new_service files rpc retries)
  unfolding notify_server
  notify_server-Keeps =
      let sending = send_state tools juju enc new_service files rpc retries in
      bind-Keeps (ensure_started tools juju enc new_service files rpc retries)
        (λ _. own >>= sending) ensure_started-Keeps
        (λ _. bind-Keeps own sending own-Keeps send_state-Keeps)

  settle-After :
      (b : Bool) (c : Concatenator) (w : W)
      → same_state c.new_state c.state ≡ b
      → let (r, (c', w')) = settle tools juju enc new_service files rpc retries c b (c, w) in
        After c r c'
  settle-After true c w same = After-same c _ (sym (same_state-eq c.new_state c.state same))
  settle-After false c w differ =
      let server = notify_server tools juju enc new_service files rpc retries in
      let told = wrap masked server in
      let notified = notify_downstream tools >> commit in
      let texts = shown c.state ∷ shown c.new_state ∷ [] in
      let said = outside (note tools c.ctxt "concat state changed from %v to %v" texts) in
      then-Commits said (told >> notified) (λ c w. refl)
        (then-Commits told notified (wrap-Keeps masked server notify_server-Keeps)
          (then-Commits (notify_downstream tools) commit (λ c w. refl) commit-Commits))
        c w

  -- Whatever fails on the way: a finally that returns success leaves the new state on record,
  -- and after an error or a panic the state on record is the old one. But for the service,
  -- nothing else of the charm changes.
  pub finally-After :
      (c : Concatenator) (w : W)
      → let (r, (c', w')) = finally tools juju enc new_service files rpc retries (c, w) in
        After c r c'
  unfolding finally
  finally-After c w = settle-After (same_state c.new_state c.state) c w refl
