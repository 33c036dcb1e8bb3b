-- ===== src/Profiler/Collected/Printed.antt =====
-- What a tick's lines of processes and threads add to the counters.
use telemetryd.Base.{refl, codes}
use telemetryd.Profiler.Lines.Printed.{IsOneLine}

comma : IsOneLine (codes ", ")
comma = (refl, (refl, tt))
