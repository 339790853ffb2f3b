-- ===== src/Sigreturn/Tests.antt =====
-- sigreturn.rs: the search in a small vDSO.
use framehopunwind.Base.{ℕ, some, [], ◌∷◌, ◌==◌, if◌then◌else◌}
use framehopunwind.Sigreturn.{Vdso, sigreturn_mov, sigreturn_svc, find_trampoline}
use framehopunwind.Sigreturn.Laws.{Search, find_trampoline_lem}

abbrev words : ℕ → ℕ
words a = if a == 0x1048 then sigreturn_mov else if a == 0x104c then sigreturn_svc else 0

abbrev vdso : Vdso
vdso = record {
  base = 0x1000;
  phdrs =
      record { p_type = 1; p_flags = 4; p_offset = 0; p_filesz = 64 }
      ∷ record { p_type = 1; p_flags = 5; p_offset = 64; p_filesz = 32 }
      ∷ [];
}

find_trampoline_lem_example : Search words 0x1000 vdso.phdrs (find_trampoline words (some vdso))
find_trampoline_lem_example = find_trampoline_lem words vdso
