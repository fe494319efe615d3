-- ===== src/Common/Labels.antt =====
-- Loops that write labels.
use loadbalancer_controller.Common.Effects.{Exec, pure, crash}
use loadbalancer_controller.Common.GoMap.{GoMap, Entries, insert, delete}
use mathlib.Core.List.{[], ◌∷◌}
use mathlib.Core.Option.{none, some}

-- `for key := range labels { delete(m, key) }`
unfoldable pub without_labels : Entries → GoMap → GoMap
unfolding delete
without_labels [] m = m
without_labels ((k, v) ∷ ls) m = without_labels ls (delete k m)

-- `for k, v := range labels { m[k] = v }`, which panics on a nil map.
unfoldable pub with_labels : {C : Type 0} → Entries → GoMap → Exec C GoMap
with_labels [] m h = pure m h
with_labels (l ∷ ls) none h = crash h
with_labels (l ∷ ls) (some m) h = with_labels ls (some (insert l.0 l.1 m)) h
