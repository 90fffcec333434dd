-- ===== src/RecordStore/Interleavings.antt =====
-- What the goroutines of the record store have done, and may still do.
use xmongodb.Common.{ℕ, ◌≢◌, Bool, true, false, [], Result, ok, err}
use xmongodb.RecordStore.{RecordStore}
use xmongodb.RecordStore.Race.{
  Method, insert_method, update_method, delete_method, Goroutine, checking, inserting, counting,
  sizing, looking, updating, resizing, seeking, deleting, uncounting, shrinking, finished, step,
}
use xmongodb.Races.{Tally, tally, none_yet}
use xmongodb.Races.Interleavings.{System}

abbrev pub tally_finished : Method → Bool → Tally
tally_finished m false = tally 1 0 0 0 0
tally_finished insert_method true = tally 1 1 0 1 0
tally_finished update_method true = tally 1 1 0 0 0
tally_finished delete_method true = tally 1 0 1 0 1

abbrev pub is_ok : {E A : Type 0} → Result E A → Bool
is_ok (ok a) = true
is_ok (err e) = false

abbrev pub tally_of : Goroutine → Tally
tally_of (checking key body) = none_yet
tally_of (inserting key body) = none_yet
tally_of (counting body) = tally 1 1 0 0 0
tally_of (sizing body) = tally 1 1 0 1 0
tally_of (looking key body) = none_yet
tally_of (updating key body old) = none_yet
tally_of (resizing body old) = tally 1 1 0 0 0
tally_of (seeking key) = none_yet
tally_of (deleting key old) = none_yet
tally_of (uncounting old) = tally 1 0 1 0 0
tally_of (shrinking old) = tally 1 0 1 0 1
tally_of (finished m r) = tally_finished m (is_ok r)

-- How many steps a goroutine may still need.
abbrev pub remaining : Goroutine → ℕ
remaining (checking key body) = 4
remaining (inserting key body) = 3
remaining (counting body) = 2
remaining (sizing body) = 1
remaining (looking key body) = 3
remaining (updating key body old) = 2
remaining (resizing body old) = 1
remaining (seeking key) = 4
remaining (deleting key old) = 3
remaining (uncounting old) = 2
remaining (shrinking old) = 1
remaining (finished m r) = 0

-- The keys that are still to be written are not empty.
abbrev pub HasKey : Goroutine → Type 0
HasKey (checking key body) = key ≢ []
HasKey (inserting key body) = key ≢ []
HasKey (looking key body) = key ≢ []
HasKey (updating key body old) = key ≢ []
HasKey (seeking key) = key ≢ []
HasKey (deleting key old) = key ≢ []
HasKey other = Unit

abbrev pub system : System RecordStore Goroutine
system = record { step = step; tally_of = tally_of; remaining = remaining; HasKey = HasKey }
