-- ===== src/Host/Scoring/Total.antt =====
-- With a `float` next to each divisor the fusion of the two lists returns.
use mdrack.Base.Text.{str_eq}
use mdrack.Base.Floats.{Floats}
