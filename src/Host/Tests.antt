-- ===== src/Host/Tests.antt =====
-- The name, the version and the digits of src/grvy_env.cpp, src/grvy_classes.cpp and
-- src/grvy_int.h at examples.
use grvy.Base.{◌*◌, ◌^◌, ◌<◌, ◌≤◌, arith}
use grvy.Base.Int.{pos}
use grvy.Host.Digits.{num_digits_positive, num_digits_positive-bounds}

num_digits_positive-bounds_example :
    (730 < 10 ^ num_digits_positive (pos 730)) × (10 ^ num_digits_positive (pos 730) ≤ 10 * 730)
num_digits_positive-bounds_example = num_digits_positive-bounds 730 (omega arith)
