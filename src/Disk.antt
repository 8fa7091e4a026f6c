-- ===== src/Disk.antt =====
-- A state file that is read whole and written whole (`_load` and `_save` of agent/incidents.py and
-- agent/escalate.py). `none` is a file that is missing, unreadable or no JSON object; a file that
-- cannot be written keeps what it had, since the code swallows `OSError`.
use srechat.Prelude.{Bool, true, ◌≡◌, Option, none, some, arith, if◌then◌else◌}

pub record File {ℓ} (A : Type ℓ) : Type ℓ where
  pub content : Option A
  pub writable : Bool

module _ {ℓ} {A : Type ℓ} where
  unfoldable pub load : A → File A → A
  load default f = elim f.content [ none ↦ default | some a ↦ a ]

  unfoldable pub save : A → File A → File A
  save a f = if f.writable then record f { content = some a } else f

  pub load-save : (d a : A) (f : File A) → f.writable ≡ true → load d (save a f) ≡ a
  unfolding load save
  load-save d a f h = ground arith

  pub writable-save : (a : A) (f : File A) → (save a f).writable ≡ f.writable
  unfolding save
  writable-save a f = ground arith
