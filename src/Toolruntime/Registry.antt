-- ===== src/Toolruntime/Registry.antt =====
-- The executor registry as a map (internal/toolruntime/dispatcher.go).
use agentic_voice_sdr.Base.{
  String, ◌≡◌, refl, ◌&&◌, List, [], ◌∷◌, Option, none, some, if◌then◌else◌, arith, str_eq, eq_iff,
  is_ok,
}
use agentic_voice_sdr.Toolruntime.{Executor, ExecutorRegistry, find, put, register, resolve}

module _ {V : Type 0} where
  find-put :
      (n j : String) (e : Executor V) (m : List (String × Executor V))
      → find j (put n e m) ≡ (if str_eq n j then some e else find j m)
  unfolding find put
  find-put n j e [] = refl
  find-put n j e ((i, x) ∷ m) = ground (arith, eq_iff n j, eq_iff i n, eq_iff i j, find-put n j e m)

  -- A registration that succeeds makes its executor the one for its name and changes no other name;
  -- one that is refused changes nothing. So the first executor of a name stays.
  pub resolve-register :
      (g : ExecutorRegistry V) (name j : String) (e : Option (Executor V))
      → resolve (register g name e).0 j
        ≡ (if is_ok (register g name e).1 && str_eq name j then e else resolve g j)
  unfolding register resolve
  resolve-register g name j none = refl
  resolve-register g name j (some e) = ground (arith, find-put name j e g.executors)
