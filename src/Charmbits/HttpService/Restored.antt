-- ===== src/Charmbits/HttpService/Restored.antt =====
-- charmbits/httpservice/server.go: what a server that is started again finds of the state.
use gocharm.Base.{String, ◌≡◌, some, arith}
use gocharm.Base.{ok, inl, inr, Result-cases}
use gocharm.Base.Dict.{Dict}
use gocharm.Hook.State.{Files}
use gocharm.Charmbits.HttpService.Fields.{ServerState, RegisteredRelation}
use gocharm.Charmbits.HttpService.Persisted.{
  StateCodec, state_path, save_state, load_state, handle_set,
}
use gocharm.Charmbits.HttpService.Server.{HandlerInfo, Network, Setting, set}

-- A file that has been written reads as what was written.
pub record IsFiles {W : Type 0} (files : Files W) : Type 0 where
  pub reads :
      (path content : String) (w w' : W)
      → files.write_file path content w ≡ (ok tt, w')
      → files.read_file path w' ≡ (ok (some content), w')

-- What json.Marshal has made of a state is read as that state.
pub record IsCodec (codec : StateCodec) : Type 0 where
  pub decodes : (p : ServerState) (s : String) → codec.marshal p ≡ ok s → codec.unmarshal s ≡ ok p

module _ {W : Type 0} (codec : StateCodec) (files : Files W) (dir_of : String → String)
    (coded : IsCodec codec) (lawful : IsFiles files) where
  load_state-save_state :
      (dir : String) (p : ServerState) (w w' : W)
      → save_state codec files dir_of dir p w ≡ (ok tt, w')
      → load_state codec files dir_of dir w' ≡ (ok p, w')
  unfolding save_state load_state
  load_state-save_state dir p w w' h = elim (Result-cases (codec.marshal p)) [
    | inl (content, e) ↦
        let w₁ = (files.mkdir_all (dir_of (state_path dir)) w).1 in
        ground (arith, coded.decodes p content e, lawful.reads (state_path dir) content w₁ w')
    | inr (inl (x, e)) ↦ absurd (ground arith)
    | inr (inr (x, e)) ↦ absurd (ground arith)
  ]

  module _ {Val Data Arg Listener Handler : Type 0}
      (registered : Dict (RegisteredRelation W Val Data)) (zero_of : String → Val)
      (info : HandlerInfo W Val Arg Handler) (net : Network W Listener Handler) where
    -- After a Set that returns no error, a server that is started on the same directory loads
    -- exactly the state that was sent, given that a written file reads as written and that JSON
    -- decodes what it encodes.
    pub load_state-handle_set :
        (p : ServerState) (s s' : Setting Val Listener Handler) (w w' : W)
        → handle_set codec files dir_of registered zero_of info net p (s, w) ≡ (ok tt, (s', w'))
        → load_state codec files dir_of s'.server.state_dir w' ≡ (ok p, w')
    unfolding handle_set
    load_state-handle_set p s s' w w' h =
        let (srv, w₁) = (set registered zero_of info net p (s, w)).1 in
        ground (arith, load_state-save_state srv.server.state_dir p w₁ w')
