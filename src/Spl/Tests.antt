-- ===== src/Spl/Tests.antt =====
-- A thread at level 0 on processor 3.
use cs.Base.{refl, true, arith}
use cs.Spl.{Ipl}
use cs.Spl.Levels.{IsLevel}

abbrev calm : Ipl
calm = record { curspl = 0; iplhigh_count = 0; irq_on = true }

calm-IsLevel : IsLevel calm
calm-IsLevel = record { irq = refl; high = omega arith; level = omega arith; small = omega arith }
