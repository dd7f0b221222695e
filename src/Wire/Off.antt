-- ===== src/Wire/Off.antt =====
-- The byte offsets of the long spatial layout (namespace off of src/Wire.hpp).
use cks_loadtest.Base.{ℕ}

abbrev pub type : ℕ
type = 0

abbrev pub app_id : ℕ
app_id = 1

abbrev pub chunk_x : ℕ
chunk_x = 9

abbrev pub chunk_y : ℕ
chunk_y = 17

abbrev pub chunk_z : ℕ
chunk_z = 25

abbrev pub distance : ℕ
distance = 33

abbrev pub decay : ℕ
decay = 34

abbrev pub contains_auth : ℕ
contains_auth = 35

abbrev pub uuid : ℕ
uuid = 36

abbrev pub payload : ℕ
payload = 68
