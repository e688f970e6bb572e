-- ===== src/Errors.antt =====
-- The exceptions that a Mini Redis command can raise, with the messages that the program writes.
-- The messages of the standard library are not modelled.
use krafton_week.Prelude.{String}

pub data Error : Type 0 where
  -- `ValueError`, `json.JSONDecodeError` and `AttributeError`
  value_error : String → Error
  json_decode_error attribute_error : Error
  -- `CommandError` and its subclasses
  command_error unknown_command wrong_number_of_arguments : String → Error
  -- a sequence that has not as many items as are read from it
  unpack_error : Error
