-- ===== src/Memphy/Access.antt =====
-- Reading and writing bytes.
use co2018_assignment.Base.{
  ℕ, ◌<◌, ◌≡◌, true, false, some, length, get_elem?_of_lt, set, get_elem?-set_self,
  get_elem?-set_ne, store_at-in_range, ◌==◌, arith, done, failed, if◌then◌else◌,
}
use native.Mathlib.Decide.{ℕ_discrete}
use co2018_assignment.Memphy.{Memphy, read, write, seq_read, seq_write}

-- A write in range to a random access device succeeds. Afterwards a read of that address gives the
-- byte, and a read of any other gives what it gave before.
pub read-write :
    (mp : Memphy) (a v : ℕ)
    → mp.rdmflg ≡ true
    → a < length mp.storage
    → (mp' : Memphy) × (write mp a v ≡ some (done, mp'))
      × ((b junk : ℕ)
          → b < length mp.storage
          → (w : ℕ) × (read mp b junk ≡ some (done, w, mp))
            × (read mp' b junk ≡ some (done, if a == b then v else w, mp')))
unfolding read write
read-write mp a v random lt = (
  record mp { storage = set mp.storage a v },
  rw (random, store_at-in_range mp.storage a v lt),
  λ b junk below.
      let (w, old) = get_elem?_of_lt mp.storage b below in
      (
        w,
        rw (random, old),
        elim (ℕ_discrete a b) [
          | yes same ↦ ground (arith, get_elem?-set_self mp.storage a v lt)
          | no other ↦ ground (arith, get_elem?-set_ne mp.storage a b v other)
        ],
      ),
)

-- On a serial device every read and every write returns -1 and changes nothing.
pub serial_fails :
    (mp : Memphy) (a v : ℕ)
    → mp.rdmflg ≡ false
    → (read mp a v ≡ some (failed, v, mp)) × (write mp a v ≡ some (failed, mp))
unfolding read write seq_read seq_write
serial_fails mp a v serial = (rw (serial), rw (serial))
