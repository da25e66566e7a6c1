-- ===== src/Updater/Cleanup.antt =====
-- rust/src/updater/transaction.rs: the removal of the files of a transaction that has ended.
use flist_walker.Prelude.{
  ℕ, Bool, true, false, ◌&&◌, Option, none, some, List, [], ◌∷◌, ◌==◌, if◌then◌else◌,
}
use flist_walker.Text.{Text, text_eq}
use flist_walker.Updater.Exec.{read, Exec, io, gets, ensure, pure, ◌>>=◌, ◌>>◌}
use flist_walker.Updater.Disk.{Node, absent, regular, other, RoleFiles}
use flist_walker.Updater.Marker.{TargetRole, order, TransactionMarker, TargetRecord}
use flist_walker.Updater.World.{World, missing, at_role, is_own_artifact, is_marker_file}
use flist_walker.Updater.Rollback.{verify_bundle_hashes}

-- `validate_ack`: the contents are the transaction ID and the token, a line each.
abbrev pub is_ack : TransactionMarker → Text → Option (Text × Text) → Bool
is_ack marker token none = false
is_ack marker token (some (id, given)) = text_eq id marker.transaction_id && text_eq given token

unfoldable pub validate_ack : TransactionMarker → Text → Exec World (Unit {0})
validate_ack marker token = do ack ← read (λ w. w.ack); ensure (is_ack marker token ack)

-- `validate_optional_hash`
abbrev pub is_optional_hash : Option Text → Node → Bool
is_optional_hash expected absent = true
is_optional_hash none (regular hash) = false
is_optional_hash (some h) (regular hash) = text_eq hash h
is_optional_hash expected other = false

unfoldable pub validate_optional_hash : {S : Type 0} → Option Text → (S → Node) → Exec S (Unit {0})
validate_optional_hash expected path =
    io λ s. if is_optional_hash expected (path s) then some (tt, s) else none

unfoldable pub validate_roles : List TargetRecord → Exec World (Unit {0})
validate_roles [] = pure tt
validate_roles (target ∷ targets) = do
  validate_optional_hash (some target.new_hash) (λ (w : World). (w.disk target.role).prepared)
  validate_optional_hash target.old_hash (λ (w : World). (w.disk target.role).backup)
  validate_optional_hash (some target.new_hash) (λ (w : World). (w.disk target.role).failed)
  validate_roles targets

abbrev pub is_optional_ack : TransactionMarker → Option (Text × Text) → Bool
is_optional_ack marker none = true
is_optional_ack marker (some ack) = elim (marker.helper_start_token) [
  | none ↦ false
  | some token ↦ is_ack marker token (some ack)
]

abbrev pub is_own_lock : TransactionMarker → Option (Text × ℕ) → Bool
is_own_lock marker none = false
is_own_lock marker (some (id, pid)) = text_eq id marker.transaction_id && pid == marker.parent_pid

-- Every caller includes the marker and the lock.
unfoldable pub validate_cleanup_artifacts : TransactionMarker → Exec World (Unit {0})
validate_cleanup_artifacts marker = do
  validate_roles marker.targets
  ack ← read (λ w. w.ack)
  ensure (is_optional_ack marker ack)
  validate_optional_hash (some marker.helper_hash) (λ (w : World). w.helper)
  artifact ← read (λ w. w.marker_temp)
  ensure (is_own_artifact marker artifact)
  readable ← gets (λ w. is_marker_file w.marker)
  ensure readable
  lock ← read (λ w. w.lock)
  ensure (is_own_lock marker lock)

abbrev pub remove_role : Exec RoleFiles (Unit {0})
remove_role = do
  io (λ f. some (tt, record f { prepared = absent }))
  io (λ f. some (tt, record f { backup = absent }))
  io (λ f. some (tt, record f { failed = absent }))

unfoldable pub remove_roles : List TargetRole → Exec World (Unit {0})
remove_roles [] = pure tt
remove_roles (r ∷ roles) = do at_role r remove_role; remove_roles roles

abbrev pub remove_with : (World → World) → Exec World (Unit {0})
remove_with f = io (λ w. some (tt, f w))

-- `remove_file_if_present` for each file, the marker and the lock last.
unfoldable pub cleanup_transaction_artifacts : TransactionMarker → Exec World (Unit {0})
cleanup_transaction_artifacts marker = do
  validate_cleanup_artifacts marker
  remove_roles order
  remove_with (λ w. record w { ack = none })
  remove_with (λ w. record w { helper = absent })
  remove_with (λ w. record w { marker_temp = missing })
  remove_with (λ w. record w { marker = missing })
  remove_with (λ w. record w { lock = none })
  io (λ w. some (tt, w))

unfoldable pub cleanup_committed : Exec World (Unit {0})
cleanup_committed = do
  verify_bundle_hashes true
  marker ← gets (λ w. w.memory)
  cleanup_transaction_artifacts marker

unfoldable pub cleanup_rolled_back : Exec World (Unit {0})
cleanup_rolled_back = do
  verify_bundle_hashes false
  marker ← gets (λ w. w.memory)
  cleanup_transaction_artifacts marker
