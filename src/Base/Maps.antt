-- ===== src/Base/Maps.antt =====
-- Functions from addresses, changed at one address.
use Prim.Native.Nat.{ℕ}
use pyo.Base.Tests.{◌==◌, if◌then◌else◌}

abbrev pub update {ℓ} : {A : Type ℓ} → (ℕ → A) → ℕ → A → ℕ → A
update f i a j = if i == j then a else f j
