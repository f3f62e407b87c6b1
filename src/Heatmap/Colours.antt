-- ===== src/Heatmap/Colours.antt =====
-- The colours of the cells against those of the students.
use bachelor_thesis.Prelude.{ℕ, Bool, ◌&&◌, ◌||◌, ltb, leb, if◌then◌else◌}
use bachelor_thesis.Heatmap.{HeatBand, emerald, amber, red}

-- A share that is less than half a percent below the bound of a band.
abbrev pub is_just_below : ℕ → Bool
is_just_below s = (leb 495 s && ltb s 500) || (leb 795 s && ltb s 800)

-- The band of a share whose percentage is rounded first.
abbrev rounded_band : ℕ → HeatBand
rounded_band s = if leb 795 s then emerald else if leb 495 s then amber else red
