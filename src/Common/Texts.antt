-- ===== src/Common/Texts.antt =====
-- Texts put together, as `fmt.Sprintf` does.
use Prim.Native.String.{String, ◌++◌}

abbrev pub join : String → String → String
join s t = s ++ t
