-- ===== src/Hook/Exec.antt =====
-- hook/runner.go: hook tools run as processes.
use gocharm.Base.{String, Bool, List, [], Option, none, some, if◌then◌else◌}
use gocharm.Base.{Error, newf, with_cause, ok, err}
use gocharm.Base.Texts.{is_empty, has_prefix, trim_prefix, trim_space}
use gocharm.Hook.Context.{Tools, err_unimplemented}

-- What a process leaves: its outputs, and the error of a run that failed.
pub record Outcome : Type 0 where
  pub stdout : String
  pub stderr : String
  pub failure : Option Error

unfoldable pub is_unimplemented : String → Bool
is_unimplemented s = has_prefix "bad request: unknown command" s

-- The error that Run returns for a failed process, by what it wrote to its error output.
unfoldable pub run_error : Error → String → Error
run_error failure stderr =
    let text = trim_prefix "error: " (trim_space stderr) in
    if is_empty stderr
    then failure
    else if is_unimplemented text
    then with_cause err_unimplemented text
    else newf text []

-- execToolRunner, on an operating system that runs processes.
unfoldable pub exec_tools : {W : Type 0} → (String → List String → W → Outcome × W) → Tools W
exec_tools start = record {
  run = λ cmd args w.
      let (out, w') = start cmd args w in
      elim out.failure [ none ↦ (ok out.stdout, w') | some e ↦ (err (run_error e out.stderr), w') ];
  close = λ w. (ok tt, w);
}
