-- ===== src/Sip/Reloader/Synced.antt =====
-- How the synchronization of the resolver's files ends (internal/telephony/sip/reconciler.go).
use agentic_voice_sdr.Base.{
  ℕ, String, Bool, true, false, not, ◌&&◌, Option, none, some, Result, ok, err, ◌≡◌, refl,
}
use agentic_voice_sdr.Sip.Resolver.{hosts_content, resolver_content}
use agentic_voice_sdr.Base.Runs.{Ends, return-Ends, if-Ends, >>=-Ends, look-Ends}
use agentic_voice_sdr.Sip.Reloader.{
  World, Environment, Step, Error, failure, ResolverSnapshot, configs, tick, same, put_hosts,
  put_resolver, put_hosts_temp, put_resolver_temp,
}
use agentic_voice_sdr.Sip.Reloader.Ends.{attempt-Ends, secure-Ends, write-Ends, remove-Ends}
use agentic_voice_sdr.Sip.Reloader.Sync.{
  restore_file, restore_resolver, managed, capture_resolver, cleanup_temp_files,
  stage_resolver_file, install_hosts, install_resolver_file, undo_install, undo_staging,
  install_both, write_both, sync_pinned_resolver,
}

-- The world with other files of the resolver.
abbrev pub moved : World → Option String → Option String → Option String → Option String → ℕ → World
moved w h r ht rt n = record w {
  hosts = h;
  resolver = r;
  hosts_temp = ht;
  resolver_temp = rt;
  count = n;
}

module _ {P : Bool → World → Type 0} (env : Environment) {w : World} where
  restore_file-Ends :
      (put : Option String → World → World) (s : Option String)
      → ((c : Option String) (n : ℕ) → P false (record (put c w) { count = n }))
      → P false (tick w)
      → ((n : ℕ) → P true (record (put s w) { count = n }))
      → Ends P (restore_file env put s) w
  restore_file-Ends put none f g t = remove-Ends env put g (t _)
  restore_file-Ends put (some s) f g t = >>=-Ends (
      write-Ends env put s (λ left. return-Ends _ (f left _))
        (secure-Ends env (f (some s) _) (t _)))

pub restore_resolver-Ends :
    {P : Bool → World → Type 0} (env : Environment) (s : ResolverSnapshot) {w : World}
    → ((h r : Option String) (n : ℕ) → P false (record w { hosts = h; resolver = r; count = n }))
    → ((n : ℕ) → P true (record w { hosts = s.hosts; resolver = s.resolver; count = n }))
    → Ends P (restore_resolver env s) w
unfolding restore_resolver
restore_resolver-Ends env s {w} f t = >>=-Ends (
    restore_file-Ends env put_hosts s.hosts (λ c n. return-Ends _ (f c w.resolver n))
      (return-Ends _ (f w.hosts w.resolver _))
      (λ n.
        restore_file-Ends env put_resolver s.resolver (λ c m. f s.hosts c m)
          (f s.hosts w.resolver _) (λ m. t m)))

cleanup_temp_files-Ends :
    {P : Bool → World → Type 0} (env : Environment) {w : World}
    → ((b : Bool) (ht rt : Option String) (n : ℕ)
        → P b (record w { hosts_temp = ht; resolver_temp = rt; count = n }))
    → Ends P (cleanup_temp_files env) w
unfolding cleanup_temp_files
cleanup_temp_files-Ends env {w} f = >>=-Ends (
    remove-Ends env put_hosts_temp
      (>>=-Ends
        (remove-Ends env put_resolver_temp (return-Ends _ (f _ _ _ _)) (return-Ends _ (f _ _ _ _))))
      (>>=-Ends (
        remove-Ends env put_resolver_temp (return-Ends _ (f _ _ _ _)) (return-Ends _ (f _ _ _ _)))))

stage_resolver_file-Ends :
    {P : Bool → World → Type 0} (env : Environment) (put : Option String → World → World)
    (s : String) {w : World}
    → ((c : Option String) (n : ℕ) → P false (record (put c w) { count = n }))
    → ((n : ℕ) → P true (record (put (some s) w) { count = n }))
    → Ends P (stage_resolver_file env put s) w
unfolding stage_resolver_file
stage_resolver_file-Ends env put s f t =
    >>=-Ends (
      write-Ends env put s (λ left. return-Ends _ (f left _))
        (secure-Ends env (f (some s) _) (t _)))

-- What is left of the resolver's files when the synchronization fails: those that were there,
-- unless the error tells of a rollback that failed.
abbrev pub Leaves :
    World → Option String → Option String → Bool → Option String → Option String → Type 0
Leaves w hosts resolver also h r = also ≡ false → (h ≡ hosts) × (r ≡ resolver)

also_failed : (b : Bool) {X : Type 0} → not (b && false) ≡ false → X
also_failed true h = cc
also_failed false h = cc

module _ {P : Result Error ResolverSnapshot → World → Type 0} (env : Environment) where
  undo_install-Ends :
      (s : ResolverSnapshot) {w : World}
      → ((step : Step) (also : Bool) (h r ht rt : Option String) (n : ℕ)
          → Leaves w s.hosts s.resolver also h r
          → P (err (failure step also)) (moved w h r ht rt n))
      → Ends P (undo_install env s) w
  undo_install-Ends s {w} f = >>=-Ends (
      cleanup_temp_files-Ends env (λ b ht rt n. >>=-Ends (
        restore_resolver-Ends env s (λ h r m. return-Ends _ (f _ _ h r ht rt m (also_failed b)))
          (λ m. return-Ends _ (f _ _ s.hosts s.resolver ht rt m (λ e. (refl, refl)))))))

  undo_staging-Ends :
      {w : World}
      → ((step : Step) (also : Bool) (ht rt : Option String) (n : ℕ)
          → P
              (err (failure step also))
              (record w { hosts_temp = ht; resolver_temp = rt; count = n }))
      → Ends P (undo_staging env) w
  undo_staging-Ends f =
      >>=-Ends (cleanup_temp_files-Ends env (λ b ht rt n. return-Ends _ (f _ _ ht rt n)))

  install_both-Ends :
      (s : ResolverSnapshot) {w : World}
      → ((step : Step) (also : Bool) (h r ht rt : Option String) (n : ℕ)
          → Leaves w s.hosts s.resolver also h r
          → P (err (failure step also)) (moved w h r ht rt n))
      → ((ht rt : Option String) (n : ℕ) → P (ok s) (moved w w.hosts_temp w.resolver_temp ht rt n))
      → Ends P (install_both env s) w
  unfolding install_hosts install_resolver_file
  install_both-Ends s f t = >>=-Ends (
      attempt-Ends env _ _ (undo_install-Ends s f)
        (>>=-Ends (attempt-Ends env _ _ (undo_install-Ends s f) (return-Ends _ (t none none _)))))

  write_both-Ends :
      (hosts resolver : String) (s : ResolverSnapshot) {w : World}
      → ((step : Step) (also : Bool) (h r ht rt : Option String) (n : ℕ)
          → Leaves w s.hosts s.resolver also h r
          → P (err (failure step also)) (moved w h r ht rt n))
      → ((also : Bool) → Leaves w s.hosts s.resolver also w.hosts w.resolver)
      → ((ht rt : Option String) (n : ℕ) → P (ok s) (moved w (some hosts) (some resolver) ht rt n))
      → Ends P (write_both env hosts resolver s) w
  write_both-Ends hosts resolver s {w} f same t = >>=-Ends (
      stage_resolver_file-Ends env put_hosts_temp hosts
        (λ c n.
          undo_staging-Ends
            (λ step also ht rt m. f step also w.hosts w.resolver ht rt m (same also)))
        (λ n. >>=-Ends (
          stage_resolver_file-Ends env put_resolver_temp resolver
            (λ c n.
              undo_staging-Ends
                (λ step also ht rt m. f step also w.hosts w.resolver ht rt m (same also)))
            (λ n. install_both-Ends s f t))))

-- The synchronization fails, and leaves the two files as they were unless it says that its rollback failed as
-- well, or installs them as the configurations want them; it changes no other file.
pub sync_pinned_resolver-Ends :
    {P : Result Error ResolverSnapshot → World → Type 0} (env : Environment) (w : World)
    → ((step : Step) (also : Bool) (h r ht rt : Option String) (n : ℕ)
        → Leaves w w.hosts w.resolver also h r
        → P (err (failure step also)) (moved w h r ht rt n))
    → ((ht rt : Option String) (n : ℕ)
        → P (ok (record { hosts = w.hosts; resolver = w.resolver })) (
            moved w
              (some (hosts_content (configs w)))
              (some (resolver_content env.hosts_path w.resolver))
              ht
              rt
              n))
    → Ends P (sync_pinned_resolver env) w
unfolding sync_pinned_resolver capture_resolver
sync_pinned_resolver-Ends {P = P} env w f t =
    let failed : (step : Step) (n : ℕ) → P (err (failure step false)) (record w { count = n }) =
      λ step n.
        f step false w.hosts w.resolver w.hosts_temp w.resolver_temp n (λ e. (refl, refl)) in
    >>=-Ends (
      >>=-Ends (
        attempt-Ends env _ _ (return-Ends _ (return-Ends _ (failed _ _))) (
          look-Ends _ (
            if-Ends (managed w.resolver && managed w.hosts)
              (return-Ends _ (
                >>=-Ends (
                  attempt-Ends env _ _ (return-Ends _ (failed _ _)) (
                    >>=-Ends (
                      attempt-Ends env _ _ (return-Ends _ (failed _ _))
                        (look-Ends _ (write_both-Ends env _ _ _ f (λ also e. (refl, refl)) t)))))))
              (return-Ends _ (return-Ends _ (failed _ _)))))))
