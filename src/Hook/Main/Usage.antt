-- ===== src/Hook/Main/Usage.antt =====
-- The usage message against the order of Go's maps.
use mathlib.Core.List.{Perm}
use mathlib.Core.List.Perm as Perms
use gocharm.Base.{◌≡◌, map}
use gocharm.Base.Dict.{keys}
use gocharm.Base.Sort.{sort-perm}
use gocharm.Hook.Registry.{SharedRegistry}
use gocharm.Hook.Main.{usage_error, command_usage}

-- The usage message is the same in whatever order Go goes through the commands and the hooks.
pub usage_error_stable :
    {W : Type 0} (r s : SharedRegistry W)
    → Perm (keys r.commands) (keys s.commands)
    → Perm (keys r.hooks) (keys s.hooks)
    → usage_error r ≡ usage_error s
unfolding usage_error
usage_error_stable r s c h = rw (
  sort-perm (map command_usage (keys r.commands)) (map command_usage (keys s.commands))
      (Perms.map command_usage c),
  sort-perm (keys r.hooks) (keys s.hooks) h,
)
