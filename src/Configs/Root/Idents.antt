-- ===== src/Configs/Root/Idents.antt =====
-- The idents that configurations get which name none.
use monitorbeat.Base.{ℕ, suc, ◌≡◌, ◌↔◌, refl, sym, ap, ap₂, ◌∙◌, true, [], ◌∷◌, ◌++◌, arith}
use monitorbeat.Base.Int.{ℤ, pos, negsuc}
use monitorbeat.Base.Text.{Text}
use monitorbeat.Input.Decimal.{decimal, decimal_injective, lacks, lacks-decimal, split_last}
use monitorbeat.Configs.Param.{or_text, print_int, default_task_id, fill_defaults}
use monitorbeat.Configs.Root.{
  TaskConfig, basereport, ping, tcp, udp, http, keyword, script, exceptionbeat, processbeat,
  socket_snapshot, self_stats, gather_up_beat, dmesg, metricbeat, get_type, task_base, clean_task,
}

lacks-print_int : (n : ℤ) → lacks b':' (print_int n) ≡ true
unfolding print_int
lacks-print_int (pos n) = lacks-decimal b':' n refl
lacks-print_int (negsuc n) = lacks-decimal b':' (suc n) refl

clean_task-ident :
    (t : TaskConfig)
    → (task_base (clean_task t)).ident ≡ (fill_defaults (get_type t) (task_base t)).ident
unfolding task_base clean_task get_type
clean_task-ident (basereport c) = refl
clean_task-ident (ping c) = refl
clean_task-ident (tcp c) = refl
clean_task-ident (udp c) = refl
clean_task-ident (http c) = refl
clean_task-ident (keyword c) = refl
clean_task-ident (script c) = refl
clean_task-ident (exceptionbeat c) = refl
clean_task-ident (processbeat c) = refl
clean_task-ident (socket_snapshot c) = refl
clean_task-ident (self_stats c) = refl
clean_task-ident (gather_up_beat c) = refl
clean_task-ident (dmesg c) = refl
clean_task-ident (metricbeat c) = refl

not-minus : (n : ℕ) (s : Text) → decimal n ≡ b'-' ∷ s → ⊥
not-minus n s e = ground (arith, lacks-decimal b'-' n refl, e)

print_int_injective : (m n : ℤ) → print_int m ≡ print_int n → m ≡ n
unfolding print_int
print_int_injective (pos m) (pos n) e = ap pos (decimal_injective m n e)
print_int_injective (pos m) (negsuc n) e = absurd (not-minus m (decimal (suc n)) e)
print_int_injective (negsuc m) (pos n) e = absurd (not-minus n (decimal (suc m)) (sym e))
print_int_injective (negsuc m) (negsuc n) e = ground (arith, decimal_injective (suc m) (suc n))

clean_task-default_ident :
    (t : TaskConfig)
    → (task_base t).ident ≡ []
    → (task_base (clean_task t)).ident
      ≡ get_type t ++ (b':' ∷ print_int (default_task_id (task_base t).task_id))
unfolding fill_defaults or_text
clean_task-default_ident t h = clean_task-ident t ∙ rw h refl

-- Of two task configurations that name no ident, cleaning gives both the same ident just if they are
-- of the same type and their ids are the same, an id 0 counting as 1.
pub default_ident_lem :
    (t u : TaskConfig)
    → (task_base t).ident ≡ []
    → (task_base u).ident ≡ []
    → ((task_base (clean_task t)).ident ≡ (task_base (clean_task u)).ident) ↔ (
        (get_type t ≡ get_type u)
        × (default_task_id (task_base t).task_id ≡ default_task_id (task_base u).task_id))
default_ident_lem t u h k =
    let first = clean_task-default_ident t h in
    let second = clean_task-default_ident u k in
    let i = default_task_id (task_base t).task_id in
    let j = default_task_id (task_base u).task_id in
    (
      (λ e.
          let (types, ids) =
            split_last b':' (get_type t) (get_type u) (print_int i) (print_int j)
              (lacks-print_int i) (lacks-print_int j) (sym first ∙ e ∙ second) in
          (types, print_int_injective i j ids)),
      λ e. first ∙ ap₂ (λ s n. s ++ (b':' ∷ print_int n)) e.0 e.1 ∙ sym second,
    )
