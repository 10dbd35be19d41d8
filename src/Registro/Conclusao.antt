-- ===== src/Registro/Conclusao.antt =====
-- src/util.go, concluirLogs: when the goroutine closes the channel that is waited for.
use greenlabs_server.Comum.{
  ℕ, suc, ◌+◌, ◌-◌, ◌<◌, ◌≡◌, ◌⊎◌, ◌↔◌, inl, inr, refl, sym, ap, ◌∙◌, Bool, true, false, ◌&&◌, ◌||◌,
  Option, none, some, List, [], ◌∷◌, ◌++◌, append_assoc, ltb, ◌==◌, if◌then◌else◌, if_cases, length,
  subst, arith,
}
use greenlabs_server.Comum.Texto.{Texto, codes, eq_texto}
use greenlabs_server.Registro.{
  RegistroLog, Logs, intervalo_de_repeticao, ha_lugar, por_na_fila, cortar, registrar,
  registrar_detalhado, concluir_logs, tratar_registro, escrever_log,
}

abbrev pub fechado : ℕ → List ℕ → Bool
fechado c [] = false
fechado c (k ∷ ks) = (k == c) || fechado c ks

abbrev pub marca : ℕ → RegistroLog
marca c = record { texto = []; concluido = some c }

abbrev pub eh_marca : ℕ → Option ℕ → Bool
eh_marca c none = false
eh_marca c (some k) = k == c

abbrev pub tem_marca : ℕ → List RegistroLog → Bool
tem_marca c [] = false
tem_marca c (r ∷ q) = eh_marca c r.concluido || tem_marca c q

-- A course from `l0` on in which the goroutine has had `n` rounds, and no other call waits for `c`.
pub data Segue (c : ℕ) (l0 : Logs) : ℕ → Logs → Type 0 where
  aqui : Segue c l0 0 l0
  registra : {n : ℕ} {l : Logs} (t : Texto) → Segue c l0 n l → Segue c l0 n (registrar t l)
  detalha :
      {n : ℕ} {l : Logs} (debug t : Texto)
      → Segue c l0 n l
      → Segue c l0 n (registrar_detalhado debug t l)
  conclui :
      {n : ℕ} {l : Logs} (k : ℕ)
      → (k == c) ≡ false
      → Segue c l0 n l
      → Segue c l0 n (concluir_logs k l).0
  escreve :
      {n : ℕ} {l : Logs} (agora : ℕ) → Segue c l0 n l → Segue c l0 (suc n) (escrever_log agora l)

-- The mark stands in the queue behind `p`.
abbrev pub Espera : ℕ → ℕ → ℕ → Logs → Type 0
Espera c total n l =
    (p : List RegistroLog) × (novos : List RegistroLog) × (l.fila ≡ p ++ (marca c ∷ novos))
    × (tem_marca c p ≡ false)
    × (fechado c l.fechados ≡ false)
    × (length p + n ≡ total)

abbrev pub Situacao : ℕ → ℕ → ℕ → Logs → Type 0
Situacao c total n l = Espera c total n l ⊎ ((fechado c l.fechados ≡ true) × (total < n))

por_na_fila-Situacao :
    (c total n : ℕ) (r : RegistroLog) (l : Logs)
    → Situacao c total n l
    → Situacao c total n (por_na_fila r l)
por_na_fila-Situacao c total n r l (inl (p, novos, e, a, b, d)) = inl (
  p,
  novos ++ (r ∷ []),
  ap (λ (q : List RegistroLog). q ++ (r ∷ [])) e ∙ append_assoc p (marca c ∷ novos) (r ∷ []),
  a,
  b,
  d,
)
por_na_fila-Situacao c total n r l (inr h) = inr h

registrar-Situacao :
    (c total n : ℕ) (t : Texto) (l : Logs)
    → Situacao c total n l
    → Situacao c total n (registrar t l)
unfolding registrar
registrar-Situacao c total n t l h =
    if_cases (Situacao c total n) (ha_lugar l)
      (λ _. por_na_fila-Situacao c total n (record { texto = cortar t; concluido = none }) l h)
      (λ _. h)

registrar_detalhado-Situacao :
    (c total n : ℕ) (debug t : Texto) (l : Logs)
    → Situacao c total n l
    → Situacao c total n (registrar_detalhado debug t l)
unfolding registrar_detalhado
registrar_detalhado-Situacao c total n debug t l h =
    if_cases (Situacao c total n) (eq_texto debug (codes "1"))
      (λ _. registrar-Situacao c total n t l h) (λ _. h)

concluir_logs-Situacao :
    (c total n k : ℕ) (l : Logs) → Situacao c total n l → Situacao c total n (concluir_logs k l).0
unfolding concluir_logs
concluir_logs-Situacao c total n k l h =
    if_cases (λ (r : Logs × Bool). Situacao c total n r.0) (ha_lugar l)
      (λ _. por_na_fila-Situacao c total n (marca k) l h) (λ _. h)

-- What the goroutine does with a record, to the queue and to the channel.
tratar_registro-fechado :
    (c agora : ℕ) (r : RegistroLog) (l : Logs)
    → ((tratar_registro agora r l).fila ≡ l.fila)
      × (fechado c (tratar_registro agora r l).fechados
          ≡ (eh_marca c r.concluido || fechado c l.fechados))
unfolding tratar_registro
tratar_registro-fechado c agora r l = caso r.concluido
  where
    Igual : Option ℕ → Logs → Type 0
    Igual o m = (m.fila ≡ l.fila) × (fechado c m.fechados ≡ (eh_marca c o || fechado c l.fechados))

    caso :
        (o : Option ℕ)
        → Igual o (elim o [
          | some k ↦ record l { fechados = k ∷ l.fechados }
          | none ↦
              if eq_texto r.texto l.ultimo && ltb (agora - l.ultimo_instante) intervalo_de_repeticao
              then l
              else record l {
                ultimo = r.texto;
                ultimo_instante = agora;
                saida = (agora, r.texto) ∷ l.saida;
              }
        ])
    caso (some k) = (refl, refl)
    caso none =
        if_cases (Igual none)
          (eq_texto r.texto l.ultimo && ltb (agora - l.ultimo_instante) intervalo_de_repeticao)
          (λ _. (refl, refl)) (λ _. (refl, refl))

escrever_log_registro :
    (agora : ℕ) (l : Logs) (r : RegistroLog) (q : List RegistroLog)
    → l.fila ≡ r ∷ q
    → escrever_log agora l ≡ tratar_registro agora r (record l { fila = q })
unfolding escrever_log
escrever_log_registro agora l r q e =
    ap
      (λ (f : List RegistroLog). elim f [
        | [] ↦ l
        | r ∷ resto ↦ tratar_registro agora r (record l { fila = resto })
      ])
      e

escrever_log-fechado :
    (c agora : ℕ) (l : Logs)
    → fechado c l.fechados ≡ true
    → fechado c (escrever_log agora l).fechados ≡ true
unfolding escrever_log
escrever_log-fechado c agora l h = caso l.fila
  where
    Fechado : Logs → Type 0
    Fechado m = fechado c m.fechados ≡ true

    caso :
        (q : List RegistroLog)
        → Fechado
            (elim q [ [] ↦ l | r ∷ resto ↦ tratar_registro agora r (record l { fila = resto }) ])
    caso [] = h
    caso (r ∷ resto) =
        ground (arith, (tratar_registro-fechado c agora r (record l { fila = resto })).1, h)

escrever_log-Situacao :
    (c total n agora : ℕ) (l : Logs)
    → Situacao c total n l
    → Situacao c total (suc n) (escrever_log agora l)
escrever_log-Situacao c total n agora l (inl ([], novos, e, a, b, d)) =
    subst (Situacao c total (suc n)) (sym (escrever_log_registro agora l (marca c) novos e)) (
      inr (
        ground (arith, (tratar_registro-fechado c agora (marca c) (record l { fila = novos })).1),
        omega (arith, d),
      ))
escrever_log-Situacao c total n agora l (inl (r ∷ p, novos, e, a, b, d)) =
    let (x, y) = tratar_registro-fechado c agora r (record l { fila = p ++ (marca c ∷ novos) }) in
    subst (Situacao c total (suc n))
      (sym (escrever_log_registro agora l r (p ++ (marca c ∷ novos)) e))
      (inl (p, novos, x, ground (arith, a), ground (arith, y, a, b), omega (arith, d)))
escrever_log-Situacao c total n agora l (inr (a, b)) =
    inr (escrever_log-fechado c agora l a, omega (arith, b))

Segue-Situacao :
    {c : ℕ} {l0 : Logs} {n : ℕ} {l : Logs} (total : ℕ)
    → Situacao c total 0 l0
    → Segue c l0 n l
    → Situacao c total n l
Segue-Situacao total h aqui = h
Segue-Situacao {c} total h (registra {n} {l} t s) =
    registrar-Situacao c total n t l (Segue-Situacao total h s)
Segue-Situacao {c} total h (detalha {n} {l} debug t s) =
    registrar_detalhado-Situacao c total n debug t l (Segue-Situacao total h s)
Segue-Situacao {c} total h (conclui {n} {l} k d s) =
    concluir_logs-Situacao c total n k l (Segue-Situacao total h s)
Segue-Situacao {c} total h (escreve {n} {l} agora s) =
    escrever_log-Situacao c total n agora l (Segue-Situacao total h s)

Situacao_iff :
    (c total n : ℕ) (l : Logs) → Situacao c total n l → (fechado c l.fechados ≡ true) ↔ (total < n)
Situacao_iff c total n l (inl (p, novos, e, a, b, d)) =
    (λ t. absurd (ground (arith, t, b)), λ m. absurd (omega (arith, m, d)))
Situacao_iff c total n l (inr (a, b)) = (λ _. b, λ _. a)

comeco :
    (c : ℕ) (l0 : Logs)
    → ha_lugar l0 ≡ true
    → fechado c l0.fechados ≡ false
    → tem_marca c l0.fila ≡ false
    → Situacao c (length l0.fila) 0 (concluir_logs c l0).0
unfolding concluir_logs
comeco c l0 t f m =
    subst
      (λ (b : Bool).
        Situacao c (length l0.fila) 0
          (if◌then◌else◌ {A = Logs × Bool} b (por_na_fila (marca c) l0, true) (l0, false)).0)
      (sym t) (inl (l0.fila, [], refl, m, f, omega arith))

-- When concluirLogs has put its mark into the queue, and no other call uses its channel, whatever is
-- logged from there on, the channel is closed once the goroutine has taken as many records as stood in
-- the queue and one more, and not before: each line logged before it has been dealt with by then.
pub concluir_logs-IsFechado :
    (c n : ℕ) (l0 l : Logs)
    → ha_lugar l0 ≡ true
    → fechado c l0.fechados ≡ false
    → tem_marca c l0.fila ≡ false
    → Segue c (concluir_logs c l0).0 n l
    → (fechado c l.fechados ≡ true) ↔ (length l0.fila < n)
concluir_logs-IsFechado c n l0 l t f m s =
    Situacao_iff c (length l0.fila) n l (Segue-Situacao (length l0.fila) (comeco c l0 t f m) s)
