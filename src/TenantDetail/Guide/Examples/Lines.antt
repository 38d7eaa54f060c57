-- ===== src/TenantDetail/Guide/Examples/Lines.antt =====
-- Template literals of more than one line in IntegrationGuide.tsx.
use Prim.Native.String.{◌++◌}
use notification_platform.Base.{String, List, [], ◌∷◌}

-- A text of these lines.
unfoldable pub lines : List String → String
lines [] = ""
lines (l ∷ []) = l
lines (l ∷ m ∷ ls) = l ++ "\n" ++ lines (m ∷ ls)
