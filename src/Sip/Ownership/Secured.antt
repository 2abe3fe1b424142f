-- ===== src/Sip/Ownership/Secured.antt =====
-- What holds of a file that applySecureFilePermissions of internal/telephony/sip/reconciler.go has secured.
use agentic_voice_sdr.Base.{
  ℕ, zero, suc, String, true, Option, none, some, Result, ok, err, ℤ, pos, negsuc, ◌≡◌, refl, subst,
  arith,
}
use agentic_voice_sdr.Base.Int.{is_positive}
use agentic_voice_sdr.Base.Runs.{
  ◌>>=◌, Ends, Ends-holds, bool-Ends, return-Ends, >>=-Ends, any-Ends, called-Ends, done-Ends,
  if-Ends,
}
use agentic_voice_sdr.Sip.Ownership.{
  Owner, FileInfo, System, Error, owner_of, id_or, uid_of, verify_owner, verify,
  apply_secure_file_permissions, directory_owner, asterisk_group, hand_over, own,
}
use Prim.Native.Nat.{◌/◌, ◌%◌}

-- A user that a file may be given to: the one that it has, or one that is not root.
pub data IsUser : ℤ → Type 0 where
  unchanged : IsUser (negsuc zero)
  user : (n : ℕ) → IsUser (pos (suc n))

-- The user is the one that was asked for, if one was.
pub data HasUser : ℤ → ℕ → Type 0 where
  kept : {m : ℕ} → HasUser (negsuc zero) m
  given : {m : ℕ} → HasUser (pos m) m

-- The owner that was asked for, where the system tells an owner.
pub data IsOwnedBy (uid : ℤ) (gid : ℕ) : Option Owner → Type 0 where
  untold : IsOwnedBy uid gid none
  told : {o : Owner} → HasUser uid o.uid → o.gid ≡ gid → IsOwnedBy uid gid (some o)

pub record IsSecure (uid : ℤ) (gid : ℕ) (info : FileInfo) : Type 0 where
  pub others : info.perm % 8 ≡ 0
  pub group : info.perm / 16 % 2 ≡ 0
  pub owner : IsOwnedBy uid gid info.owner

-- A file that was secured has been given to a group that is not root's, and shown after that as secure.
pub data Secured {S : Type 0} (system : System S) (path : String)
    : Result Error (Unit {0}) → S → Type 0 where
  refused : {e : Error} {w : S} → Secured system path (err e) w
  secured :
      {uid : ℤ} {n : ℕ} {info : FileInfo} {u v w : S}
      → IsUser uid
      → system.chown path uid (pos (suc n)) u ≡ (true, v)
      → system.stat path v ≡ (some info, w)
      → IsSecure uid (suc n) info
      → Secured system path (ok tt) w

id_or-IsUser : (n : ℕ) → IsUser (id_or (negsuc zero) n)
id_or-IsUser zero = unchanged
id_or-IsUser (suc n) = user n

uid_of-IsUser : (o : Option Owner) → IsUser (uid_of o)
uid_of-IsUser none = unchanged
uid_of-IsUser (some o) = id_or-IsUser o.uid

verify_owner-IsOwnedBy :
    {uid : ℤ} (n : ℕ) (o : Option Owner)
    → IsUser uid
    → verify_owner uid (pos (suc n)) o ≡ ok tt
    → IsOwnedBy uid (suc n) o
verify_owner-IsOwnedBy n none h e = untold
verify_owner-IsOwnedBy n (some o) unchanged e = told kept (grind arith)
verify_owner-IsOwnedBy n (some o) (user k) e =
    let same : suc k ≡ o.uid = grind arith in
    told (subst (HasUser (pos (suc k))) same given) (grind arith)

verify-IsSecure :
    {uid : ℤ} (n : ℕ) (info : FileInfo)
    → IsUser uid
    → verify uid (pos (suc n)) (some info) ≡ ok tt
    → IsSecure uid (suc n) info
verify-IsSecure {uid} n info h e = record {
  others = grind arith;
  group = grind arith;
  owner = verify_owner-IsOwnedBy n info.owner h (grind arith);
}

module _ {S : Type 0} (system : System S) (path : String) where
  verified :
      {uid : ℤ} {n : ℕ} {u v : S} (info : Option FileInfo) (w : S)
      → IsUser uid
      → system.chown path uid (pos (suc n)) u ≡ (true, v)
      → system.stat path v ≡ (info, w)
      → (r : Result Error (Unit {0})) → verify uid (pos (suc n)) info ≡ r
      → Secured system path r w
  verified info w h by shown (err e) eq = refused
  verified none w h by shown (ok t) eq = ground arith
  verified (some info) w h by shown (ok t) eq = secured h by shown (verify-IsSecure _ info h eq)

  hand_over-Ends :
      {uid : ℤ} (n : ℕ) {u : S}
      → IsUser uid
      → Ends (Secured system path) (hand_over system path uid (pos (suc n))) u
  hand_over-Ends n h = >>=-Ends (
      done-Ends (λ v. return-Ends _ refused)
        (λ v by.
          >>=-Ends
            (called-Ends (λ info w shown. return-Ends _ (verified info w h by shown _ refl)))))

  own-Ends :
      {uid : ℤ} (gid : ℤ) {u : S}
      → IsUser uid
      → Ends (Secured system path) (own system path uid gid) u
  own-Ends (pos zero) h = return-Ends _ refused
  own-Ends (pos (suc n)) h =
      let more : is_positive (pos (suc n)) ≡ true = ground arith in rw more (hand_over-Ends n h)
  own-Ends (negsuc n) h = return-Ends _ refused

  directory_owner-Ends :
      (dir : String) {w : S}
      → Ends
          (λ ids.
            Ends (Secured system path) (asterisk_group system ids.1 >>= own system path ids.0))
          (directory_owner system dir)
          w
  directory_owner-Ends dir = if-Ends _ (return-Ends _ (owned (negsuc zero) unchanged)) (
      >>=-Ends (
        any-Ends (λ info v.
          >>=-Ends
            (any-Ends (λ gid u. return-Ends _ (owned gid (uid_of-IsUser (owner_of info))))))))
    where
      owned :
          {uid : ℤ} (gid : ℤ) {w : S}
          → IsUser uid
          → Ends (Secured system path) (asterisk_group system gid >>= own system path uid) w
      owned gid h = >>=-Ends (any-Ends (λ found v. own-Ends found h))

  -- Whatever the calls of the system answer, a file that is secured without an error was given to a group that
  -- is not root's and to no user or one that is not root, and the system then showed it with no permission for
  -- others, no write permission for its group, and, if it told an owner, that owner.
  pub apply_secure_file_permissions-Secured :
      (dir : String) (w : S)
      → let r = apply_secure_file_permissions system dir path w in Secured system path r.0 r.1
  unfolding apply_secure_file_permissions
  apply_secure_file_permissions-Secured dir w =
      Ends-holds (
        >>=-Ends
          (bool-Ends (λ v. return-Ends _ refused) (λ v. >>=-Ends (directory_owner-Ends dir))))
