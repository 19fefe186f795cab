-- ===== src/Hdf5/Library.antt =====
-- The calls of the HDF5 library that src/grvy_hdf5.cpp makes. A call returns an identifier or a code,
-- negative where it fails. V stands for the values of attributes.
use grvy.Base.{ℕ, Bool, true, false, Option, List}
use grvy.Base.Int.{ℤ, pos, negsuc}
use grvy.Base.Text.{Text}

abbrev pub is_negative : ℤ → Bool
is_negative (pos n) = false
is_negative (negsuc n) = true

pub record Library (S V : Type 0) : Type 0 where
  pub f_create : Text → Bool → S → ℤ × S
  pub f_open : Text → Bool → S → ℤ × S
  pub f_close : ℤ → S → S
  pub g_create : ℤ → Text → S → ℤ × S
  pub g_set_comment : ℤ → Text → S → ℤ × S
  pub g_open : ℤ → Text → S → ℤ × S
  pub g_close : ℤ → S → ℤ × S
  -- The links of a group, and whether each is a group itself.
  pub l_iterate : ℤ → S → List (Text × Bool)
  pub d_open : ℤ → Text → S → ℤ × S
  pub d_close : ℤ → S → ℤ × S
  pub s_create : S → ℤ × S
  pub s_close : ℤ → S → S
  pub a_open : ℤ → Text → S → ℤ × S
  pub a_create : ℤ → Text → S → ℤ × S
  pub a_write : ℤ → V → S → ℤ × S
  pub a_read : ℤ → S → ℤ × Option V
  pub a_close : ℤ → S → S
  pub pt_open : ℤ → Text → S → ℤ × S
  pub pt_close : ℤ → S → ℤ × S
  pub pt_num_packets : ℤ → S → ℤ × ℕ
