-- ===== src/Hook/State.antt =====
-- hook/state.go: the persistent state, behind its interface and on disk.
use Prim.Native.String.{◌++◌}
use gocharm.Base.{String, Option, [], ◌∷◌, Act, masked}
use gocharm.Base.{◌>>◌, wrap}
use gocharm.Base.Paths.{join_path}

-- PersistentState: `none` is data that has not been saved.
pub record PersistentState (W : Type 0) : Type 0 where
  pub save : String → String → Act W (Unit {0})
  pub load : String → Act W (Option String)

-- The calls of the file system; `none` is a file that does not exist.
pub record Files (W : Type 0) : Type 0 where
  pub mkdir_all : String → Act W (Unit {0})
  pub write_file : String → String → Act W (Unit {0})
  pub read_file : String → Act W (Option String)

-- diskState.path
unfoldable pub path : String → String → String
path dir name = join_path (dir ∷ (name ++ ".json") ∷ [])

module _ {W : Type 0} (files : Files W) where
  unfoldable pub disk_save : String → String → String → Act W (Unit {0})
  disk_save dir name content = do
    wrap masked (files.mkdir_all dir)
    wrap masked (files.write_file (path dir name) content)

  unfoldable pub disk_load : String → String → Act W (Option String)
  disk_load dir name = wrap masked (files.read_file (path dir name))

  unfoldable pub new_disk_state : String → PersistentState W
  unfolding disk_save disk_load
  new_disk_state dir = record { save = disk_save dir; load = disk_load dir }
