-- ===== src/Buffer/Failures.antt =====
-- internal/buffer/error.go
use psql_wire.Base.{Bytes, Option, codes, decimal, negsuc, none, pos, some, suc, ℕ, ℤ, ◌++◌, ◌∷◌}
use psql_wire.Errors.{
  Error, coded, constrained, detailed, graded, hinted, insufficient_data, level_error, level_fatal,
  message_size_exceeded, missing_nul_terminator, sourced, wrapped,
}
use psql_wire.Errors.Codes.Internals.{data_corrupted}
use psql_wire.Errors.Codes.Resources.{program_limit_exceeded}

unfoldable pub new_missing_nul_terminator : Error
new_missing_nul_terminator = graded (coded missing_nul_terminator data_corrupted) level_fatal

unfoldable pub new_insufficient_data : ℕ → Error
new_insufficient_data n =
    graded
      (coded
        (wrapped (codes "length: " ++ (decimal n ++ codes " insufficient data")) insufficient_data)
        data_corrupted)
      level_fatal

-- `%d` of an int
unfoldable pub decimal_int : ℤ → Bytes
decimal_int (pos n) = decimal n
decimal_int (negsuc n) = b'-' ∷ decimal (suc n)

unfoldable pub new_message_size_exceeded : ℕ → ℤ → Error
unfolding decimal_int
new_message_size_exceeded max size =
    graded
      (coded
        (message_size_exceeded
          (codes "message size "
            ++ (decimal_int size
                ++ (codes ", bigger than maximum allowed message size " ++ decimal max)))
          size max)
        program_limit_exceeded)
      level_error

-- `UnwrapMessageSizeExceeded`: `errors.As`, which looks down the chain of wrapped errors. Only the
-- size is read from the struct. `errors.Is(err, ErrMessageSizeExceeded)` holds exactly where this
-- finds one, since the struct's `Is` compares the types alone.
unfoldable pub unwrap_message_size_exceeded : Error → Option ℤ
unwrap_message_size_exceeded (message_size_exceeded m size max) = some size
unwrap_message_size_exceeded (wrapped _ e) = unwrap_message_size_exceeded e
unwrap_message_size_exceeded (coded e _) = unwrap_message_size_exceeded e
unwrap_message_size_exceeded (graded e _) = unwrap_message_size_exceeded e
unwrap_message_size_exceeded (hinted e _) = unwrap_message_size_exceeded e
unwrap_message_size_exceeded (detailed e _) = unwrap_message_size_exceeded e
unwrap_message_size_exceeded (constrained e _) = unwrap_message_size_exceeded e
unwrap_message_size_exceeded (sourced e _) = unwrap_message_size_exceeded e
unwrap_message_size_exceeded _ = none
