-- ===== src/Wire/StateOff.antt =====
-- The UE5 actor state (namespace state of src/Wire.hpp).
use cks_loadtest.Base.{ℕ}

abbrev pub version_value : ℕ
version_value = 2

abbrev pub size : ℕ
size = 88

abbrev pub version : ℕ
version = 0

abbrev pub position_x : ℕ
position_x = 8

abbrev pub position_y : ℕ
position_y = 16

abbrev pub position_z : ℕ
position_z = 24

abbrev pub rotation_pitch : ℕ
rotation_pitch = 32

abbrev pub rotation_yaw : ℕ
rotation_yaw = 40

abbrev pub rotation_roll : ℕ
rotation_roll = 48

abbrev pub velocity_x : ℕ
velocity_x = 56

abbrev pub velocity_y : ℕ
velocity_y = 64

abbrev pub velocity_z : ℕ
velocity_z = 72
