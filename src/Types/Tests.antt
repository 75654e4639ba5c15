-- ===== src/Types/Tests.antt =====
-- Examples for src/usmp/types.py.
use usmp_python.Prelude.{◌≡◌, refl, replicate}
use usmp_python.Errors.{err, value_error}
use usmp_python.Types.{Bytes, session_info}

abbrev device : Bytes
device = replicate 6 7

abbrev session : Bytes
session = replicate 16 8

abbrev key : Bytes
key = replicate 32 9

short_key : session_info device session key device ≡ err value_error
unfolding session_info
short_key = refl
