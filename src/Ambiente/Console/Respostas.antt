-- ===== src/Ambiente/Console/Respostas.antt =====
-- src/console.go and src/main.go: the port that comes out of the start of the program.
use greenlabs_server.Comum.{
  ℕ, ◌^◌, ◌<◌, ◌≡◌, refl, ap, ◌∙◌, Bool, true, false, not, ◌&&◌, Option, none, some, [], ◌∷◌,
  if◌then◌else◌, Bool-cases, inl, inr, or_false, arith,
}
use greenlabs_server.Comum.Texto.{Texto, vazio, trim_space}
use greenlabs_server.Comum.Inteiro.{ℤ, pos, negsuc, leb_int, atoi}
use greenlabs_server.Hub.Operacoes.{format_int}
use greenlabs_server.Ambiente.{Ambiente, Opcoes, porta_valida, resolver_porta}
use greenlabs_server.Ambiente.Portas.{resolver_porta-valida}
use greenlabs_server.Ambiente.Console.{
  ler_string, resposta_ou, perguntar, perguntar_sim_nao, com_resposta, tem_opcao, com_tunel,
  perguntar_configuracao,
}
use greenlabs_server.Ambiente.Console.Numeros.{atoi-itoa}

-- The text that was typed, without the blanks around it.
abbrev pub digitado : Option Texto → Texto
digitado none = []
digitado (some linha) = trim_space linha

-- The port by a text: itself if it is one, and what the environment gives else.
abbrev pub porta_digitada : Ambiente → Texto → ℤ
porta_digitada amb texto = elim (atoi texto) [
  | none ↦ resolver_porta amb (pos 0)
  | some n ↦ if porta_valida n then n else resolver_porta amb (pos 0)
]

porta_valida-natural : (z : ℤ) → porta_valida z ≡ true → (n : ℕ) × (z ≡ pos n) × (n < 2 ^ 63)
unfolding porta_valida
porta_valida-natural (pos n) e = (n, refl, menor n (ground (arith, e)))
  where
    menor : (n : ℕ) → n < 65536 → n < 2 ^ 63
    menor n h = omega (arith, h)
porta_valida-natural (negsuc n) e = absurd (ground (arith, e))

atoi-format_int : (z : ℤ) → porta_valida z ≡ true → atoi (format_int z) ≡ some z
unfolding format_int
atoi-format_int z e =
    let (n, igual, menor) = porta_valida-natural z e in rw igual (atoi-itoa n menor)

zero_int : (z : ℤ) → (leb_int z (pos 0) && leb_int (pos 0) z) ≡ true → z ≡ pos 0
zero_int (pos n) e = ap pos (ground (arith, e))
zero_int (negsuc n) e = absurd (ground (arith, e))

de_not : (b : Bool) → not b ≡ false → b ≡ true
de_not b e = ground (arith, e)

sem_opcao-porta : (o : Opcoes) → tem_opcao o ≡ false → o.porta ≡ pos 0
unfolding tem_opcao
sem_opcao-porta o e = zero_int o.porta (
    de_not (leb_int o.porta (pos 0) && leb_int (pos 0) o.porta)
      (or_false (not (leb_int o.porta (pos 0) && leb_int (pos 0) o.porta)) (not (vazio o.tunel))
        e).0)

resposta_ou-digitado :
    (padrao : Texto) (linha : Option Texto)
    → resposta_ou padrao linha ≡ (if vazio (digitado linha) then padrao else digitado linha)
unfolding resposta_ou
resposta_ou-digitado padrao none = refl
resposta_ou-digitado padrao (some linha) = refl

com_tunel-porta : (sim : Bool) (o : Opcoes) → (com_tunel sim o).porta ≡ o.porta
unfolding com_tunel
com_tunel-porta true o = refl
com_tunel-porta false o = refl

com_resposta_porta :
    (amb : Ambiente) (texto : Texto) (o : Opcoes)
    → o.porta ≡ pos 0
    → resolver_porta amb (com_resposta texto o).porta ≡ porta_digitada amb texto
unfolding com_resposta
com_resposta_porta amb texto o z = caso (atoi texto)
  where
    Igual : Opcoes → ℤ → Type 0
    Igual m n = resolver_porta amb m.porta ≡ n

    caso :
        (r : Option ℤ)
        → Igual
            (elim r [ none ↦ o | some n ↦ if porta_valida n then record o { porta = n } else o ])
            (elim r [
              | none ↦ resolver_porta amb (pos 0)
              | some n ↦ if porta_valida n then n else resolver_porta amb (pos 0)
            ])
    caso none = ap (resolver_porta amb) z
    caso (some n) = elim (Bool-cases (porta_valida n)) [
      | inl t ↦ rw t ((resolver_porta-valida amb n).1 t)
      | inr f ↦ rw f (ap (resolver_porta amb) z)
    ]

porta_digitada_numero :
    (amb : Ambiente) (texto : Texto) (n : ℤ)
    → atoi texto ≡ some n
    → porta_valida n ≡ true
    → porta_digitada amb texto ≡ n
porta_digitada_numero amb texto n e v = rw (e, porta_digitada, v) refl

porta_digitada-padrao :
    (amb : Ambiente) (texto : Texto)
    → (let padrao = format_int (resolver_porta amb (pos 0)) in
        porta_digitada amb (if vazio texto then padrao else texto))
      ≡ porta_digitada amb texto
unfolding atoi
porta_digitada-padrao amb [] =
    let valida = (resolver_porta-valida amb (pos 0)).0 in
    porta_digitada_numero amb (format_int (resolver_porta amb (pos 0))) (resolver_porta amb (pos 0))
      (atoi-format_int (resolver_porta amb (pos 0)) valida) valida
porta_digitada-padrao amb (c ∷ cs) = refl

-- Without --port and --tunnel and on a terminal, the port that main goes on to is the number that was
-- typed, blanks around it aside, when it is one in 1..65535, and else, also behind Enter alone or an
-- input that ends, the one of PORT or SERVER_PORT or 25640, as it is without the question.
pub perguntar_configuracao-porta :
    (amb : Ambiente) (entrada : Texto) (o : Opcoes)
    → tem_opcao o ≡ false
    → resolver_porta amb (perguntar_configuracao amb true entrada o).0.porta
      ≡ porta_digitada amb (digitado (ler_string entrada).0)
unfolding perguntar_configuracao perguntar
perguntar_configuracao-porta amb entrada o e =
    let padrao = format_int (resolver_porta amb (pos 0)) in
    let (linha, r1) = ler_string entrada in
    rw e (
      ap (resolver_porta amb)
        (com_tunel-porta (perguntar_sim_nao false r1).0 (com_resposta (resposta_ou padrao linha) o))
      ∙ com_resposta_porta amb (resposta_ou padrao linha) o (sem_opcao-porta o e)
      ∙ ap (porta_digitada amb) (resposta_ou-digitado padrao linha)
      ∙ porta_digitada-padrao amb (digitado linha))
