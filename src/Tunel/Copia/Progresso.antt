-- ===== src/Tunel/Copia/Progresso.antt =====
-- src/cloudflared.go, leitorComProgresso: the notices of a download. Milliseconds of the clock come
-- with each read; a count of bytes stays far below 2 ^ 63.
use greenlabs_server.Comum.{
  ℕ, ◌+◌, ◌≡◌, Bool, true, ◌&&◌, ◌||◌, Option, none, some, List, [], ◌∷◌, ltb, if◌then◌else◌,
  length, arith,
}
use greenlabs_server.Comum.Inteiro.{ℤ}

-- One read of the source: when it came back, what it gave, and whether it was the end.
pub record Leitura : Type 0 where
  pub agora : ℕ
  pub bytes : List ℕ
  pub eof : Bool

pub record Leitor : Type 0 where
  pub total : ℤ
  pub baixado : ℕ
  pub tem_aviso : Bool
  pub ultimo_em : Option ℕ

-- The zero time is `none`.
unfoldable pub passou : ℕ → Option ℕ → Bool
passou agora none = true
passou agora (some antes) = ltb (antes + 200) agora

-- The second result is the notice.
unfoldable pub ler_com_progresso : Leitura → Leitor → Leitor × Option (ℕ × ℤ)
unfolding passou
ler_com_progresso r l =
    let l1 = record l { baixado = l.baixado + length r.bytes } in
    if l.tem_aviso && (r.eof || passou r.agora l.ultimo_em)
    then (record l1 { ultimo_em = some r.agora }, some (l1.baixado, l.total))
    else (l1, none)

unfoldable pub ler_tudo_com_progresso : List Leitura → Leitor → Leitor × List (ℕ × ℤ)
unfolding ler_com_progresso
ler_tudo_com_progresso [] l = (l, [])
ler_tudo_com_progresso (r ∷ rs) l =
    let (l1, aviso) = ler_com_progresso r l in
    let (l2, avisos) = ler_tudo_com_progresso rs l1 in
    (l2, elim aviso [ none ↦ avisos | some a ↦ a ∷ avisos ])

abbrev pub lidos_ao_todo : List Leitura → ℕ
lidos_ao_todo [] = 0
lidos_ao_todo (r ∷ rs) = length r.bytes + lidos_ao_todo rs

ler_com_progresso-baixado :
    (r : Leitura) (l : Leitor) → (ler_com_progresso r l).0.baixado ≡ l.baixado + length r.bytes
unfolding ler_com_progresso
ler_com_progresso-baixado r l = ground arith

-- The count that the notices give is that of the bytes that were read.
pub ler_tudo_com_progresso-baixado :
    (rs : List Leitura) (l : Leitor)
    → (ler_tudo_com_progresso rs l).0.baixado ≡ l.baixado + lidos_ao_todo rs
unfolding ler_tudo_com_progresso
ler_tudo_com_progresso-baixado [] l = omega arith
ler_tudo_com_progresso-baixado (r ∷ rs) l = omega (
  arith,
  ler_tudo_com_progresso-baixado rs (ler_com_progresso r l).0,
  ler_com_progresso-baixado r l,
)
