-- ===== src/Tests/Updates/Bundle.antt =====
-- A small bundle, for the tests of the updater.
use flist_walker.Prelude.{ℕ, zero, suc, true, false, Option, none, some, List, [], ◌∷◌, map}
use flist_walker.Text.{Text}
use flist_walker.Updater.Exec.{Fault, works, stops}
use flist_walker.Updater.Marker.{
  TargetRole, readme, license, notices, binary, order, helper_registered, prepared,
  TransactionMarker,
}
use flist_walker.Updater.Disk.{absent, regular}
use flist_walker.Updater.World.{World, missing, holds}
use flist_walker.Updater.Apply.{Surroundings}
use flist_walker.Updater.Recover.{ProcessProbe}
use flist_walker.Updater.Recoverable.{Transaction, target_of, node_of}

abbrev pub repeat : ℕ → ℕ → Text
repeat zero c = []
repeat (suc n) c = c ∷ repeat n c

abbrev pub token : Text
token = repeat 16 b'x'

-- The license is new, the readme is as before, and the other two change.
abbrev pub old_hash : TargetRole → Option Text
old_hash readme = some (repeat 64 b'1')
old_hash license = none
old_hash notices = some (repeat 64 b'2')
old_hash binary = some (repeat 64 b'3')

abbrev pub new_hash : TargetRole → Text
new_hash readme = repeat 64 b'1'
new_hash license = repeat 64 b'5'
new_hash notices = repeat 64 b'6'
new_hash binary = repeat 64 b'7'

abbrev pub registered : TransactionMarker
registered = record {
  version = 1;
  transaction_id = repeat 32 b'a';
  binary_name = b'f' ∷ [];
  parent_pid = 7;
  helper_pid = some 9;
  helper_start_token = some token;
  helper_hash = repeat 64 b'3';
  phase = helper_registered;
  targets = map (λ r. target_of r (old_hash r) (new_hash r) prepared) order;
}

abbrev pub bundle : Transaction
bundle = record { ident = registered; old = old_hash; new = new_hash }

abbrev pub start : World
start = record {
  memory = registered;
  marker = holds registered;
  marker_temp = missing;
  disk = λ r. record {
    target = node_of (old_hash r);
    prepared = regular (new_hash r);
    backup = absent;
    failed = absent;
  };
  ack = some (repeat 32 b'a', token);
  helper = regular (repeat 64 b'3');
  lock = some (repeat 32 b'a', 7);
}

abbrev pub usual : Surroundings
usual = record { parent_exits = some true; restarts = true; after_applied = λ r. true }

abbrev pub dead : ProcessProbe
dead = record {
  is_alive = λ pid. false;
  executable_matches = λ pid. false;
  is_current_process = λ pid. false;
}

abbrev pub after : ℕ → List Fault
after zero = stops ∷ []
after (suc n) = works ∷ after n
