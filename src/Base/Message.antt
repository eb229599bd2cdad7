-- ===== src/Base/Message.antt =====
-- The text of an error: a note stands in front of the text of what it was made for.
use Prim.Native.String.{String, ◌++◌}
use gocharm.Base.Effect.{Error, newf, sentinel, with_cause, masked, noted}
use gocharm.Base.Texts.{sprintf}

unfoldable pub message : Error → String
message (newf f args) = sprintf f args
message (sentinel s) = s
message (with_cause e s) = s
message (masked e) = message e
message (noted e f args) = sprintf f args ++ (": " ++ message e)
