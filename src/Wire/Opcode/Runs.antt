-- ===== src/Wire/Opcode/Runs.antt =====
-- Opcodes at their values.
use brain_sdk.Prelude.{◌≡◌, refl, some, none}
use brain_sdk.Wire.Opcode.{opcode_value, recall_req}
use brain_sdk.Wire.Opcode.Values.{opcode_of, opcode_of-opcode_value}

opcode_of-opcode_value_example : opcode_of (opcode_value recall_req) ≡ some recall_req
opcode_of-opcode_value_example = opcode_of-opcode_value recall_req

no_opcode : opcode_of 0x29 ≡ none
unfolding opcode_of
no_opcode = refl
