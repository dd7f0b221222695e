-- ===== src/Wire/BwfPose.antt =====
-- The Blocks With Friends pose (namespace bwfpose of src/Wire.hpp).
use cks_loadtest.Base.{ℕ}

abbrev pub size : ℕ
size = 48

abbrev pub x : ℕ
x = 0

abbrev pub y : ℕ
y = 4

abbrev pub z : ℕ
z = 8

abbrev pub yaw : ℕ
yaw = 12

abbrev pub pitch : ℕ
pitch = 16

abbrev pub velocity_x : ℕ
velocity_x = 20

abbrev pub velocity_y : ℕ
velocity_y = 24

abbrev pub velocity_z : ℕ
velocity_z = 28

abbrev pub flags : ℕ
flags = 32

abbrev pub held_block_id : ℕ
held_block_id = 33

abbrev pub updated_at : ℕ
updated_at = 36

abbrev pub flag_grounded : ℕ
flag_grounded = 1

abbrev pub flag_mob : ℕ
flag_mob = 2
