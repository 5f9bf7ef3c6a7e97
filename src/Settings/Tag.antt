-- ===== src/Settings/Tag.antt =====
-- The tags of a settings record, the enum at the top of firmware/main/settings.h.
use open_apex.Base.{ℕ}

abbrev pub accent : ℕ
accent = 1

abbrev pub avatar : ℕ
avatar = 2

abbrev pub eta_format : ℕ
eta_format = 3

abbrev pub clock_12h : ℕ
clock_12h = 4

abbrev pub units : ℕ
units = 5

abbrev pub dial_outer : ℕ
dial_outer = 6

abbrev pub friends_on_compass : ℕ
friends_on_compass = 7

abbrev pub friend_marker : ℕ
friend_marker = 8

abbrev pub mesh_enabled : ℕ
mesh_enabled = 9

abbrev pub auto_odometer : ℕ
auto_odometer = 10
