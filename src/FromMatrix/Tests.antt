-- ===== src/FromMatrix/Tests.antt =====
-- A message from Matrix, run with a store that is a list of rooms.
use matrix_bridge_discord.Prelude.{String, true, none}
use matrix_bridge_discord.MatrixCommand.{MatrixCommandHandler, new}

abbrev obeying : MatrixCommandHandler
obeying = new true none

abbrev as_is : String → String
as_is text = text
