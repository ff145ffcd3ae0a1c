-- ===== src/Examples/DeviceRuns.antt =====
-- Runs of internal/devices and internal/server/auth.go: one device, enrolled by QR. The hash of a
-- token is the token here.
use curtilage.Prelude.{
  ◌+◌, ◌≡◌, ◌↔◌, ◌≢◌, ◌≤◌, refl, true, false, List, [], ◌∷◌, none, some, Text, codes, length,
  eq_text,
}
use curtilage.Prelude.Map.{get}
use curtilage.Devices.{
  Registry, Device, mint_enrollment, enroll, authenticate, forget, lookup, sweep, is_valid,
  max_pending, enroll_ttl, new_device, see_at, armed,
}
use curtilage.Devices.Pending.{mint_enrollment-bounded, enroll_failed-armed}
use curtilage.Devices.Calls.{Call, mints, enrolls, authenticates, run}
use curtilage.Devices.Calls.Spent.{enroll-enroll}
use curtilage.Devices.Calls.Later.{authenticate-enroll, authenticate-forget}
use curtilage.Server.Auth.{authorize, is_ok}
use curtilage.Server.Auth.Grounds.{authorize-passes, IsGranted}

abbrev hash : Text → Text
hash t = t

abbrev empty : Registry
empty = record {
  persists = true;
  order = [];
  passkeys = [];
  pending = [];
  saved = 0;
  disk = ([], []);
}

abbrev pending_one : Registry
pending_one = record empty { pending = (codes "qr", 500) ∷ [] }

abbrev phone : Device
phone = new_device hash (codes "d1") (codes "tok") (codes "phone") 100

abbrev enrolled : Registry
enrolled = record empty { order = phone ∷ []; saved = 100; disk = (phone ∷ [], []) }

mint_enrollment-bounded_example :
    (length (mint_enrollment (codes "qr") 7 empty).pending ≤ max_pending)
    × (get (codes "qr") (mint_enrollment (codes "qr") 7 empty).pending ≡ some (7 + enroll_ttl))
mint_enrollment-bounded_example = mint_enrollment-bounded (codes "qr") 7 empty

enroll_runs :
    enroll hash true (codes "d1") (codes "tok") (codes "qr") (codes "phone") 100 pending_one
    ≡ (enrolled, some (phone, codes "tok"))
unfolding enroll
enroll_runs = refl

abbrev between : List Call
between =
    mints (codes "q2") 150
    ∷ enrolls true (codes "d2") (codes "t2") (codes "q2") (codes "tablet") 160
    ∷ authenticates true (codes "tok") 170
    ∷ []

enroll-enroll_example :
    (enroll hash true (codes "d3") (codes "t3") (codes "qr") (codes "other") 180 (
      run hash between
        (enroll hash true
          (codes "d1")
          (codes "tok")
          (codes "qr")
          (codes "phone")
          100
          pending_one).0)).1
    ≡ none
enroll-enroll_example =
    enroll-enroll hash true true (codes "d1") (codes "tok") (codes "d3") (codes "t3") (codes "qr")
      (codes "phone") (codes "other") 100 180 between pending_one ((λ e. cc), (tt, (tt, tt)))

qr_is_valid : is_valid 100 (get (codes "qr") (sweep 100 pending_one.pending)) ≡ true
unfolding is_valid sweep
qr_is_valid = refl

enroll_failed-armed_example :
    ((enroll hash false (codes "d1") (codes "tok") (codes "qr") (codes "phone") 100 pending_one).1
      ≡ none)
    × (armed
          (enroll hash false
            (codes "d1")
            (codes "tok")
            (codes "qr")
            (codes "phone")
            100
            pending_one).0
        ≡ true)
enroll_failed-armed_example =
    enroll_failed-armed hash (codes "d1") (codes "tok") (codes "qr") (codes "phone") 100 pending_one
      refl qr_is_valid

authenticate-enroll_example :
    (authenticate hash true (codes "tok") 200 (run hash between enrolled)).1
    ≡ some (see_at 200 phone)
authenticate-enroll_example =
    authenticate-enroll hash true true (codes "d1") (codes "tok") (codes "qr") (codes "phone") 100
      200 between pending_one enrolled phone enroll_runs (tt, ((λ e. cc), (tt, tt)))

authenticate-forget_example :
    ((authenticate hash true
        (codes "tok")
        300
        (run hash between (forget hash true (codes "tok") 140 enrolled))).1
      ≡ none)
    × ((other : Text)
        → codes "tok" ≢ other
        → lookup other (forget hash true (codes "tok") 140 enrolled).order
          ≡ lookup other enrolled.order)
authenticate-forget_example =
    authenticate-forget hash true true (codes "tok") 140 300 between enrolled
      (tt, ((λ e. cc), (tt, tt)))

authorize-passes_example :
    (is_ok (authorize hash true (some (codes "Bearer tok" ∷ [])) (codes "List") 200 enrolled).1
      ≡ true)
    ↔ IsGranted hash (some (codes "Bearer tok" ∷ [])) (codes "List") enrolled
authorize-passes_example =
    authorize-passes hash true (some (codes "Bearer tok" ∷ [])) (codes "List") 200 enrolled
