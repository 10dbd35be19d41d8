-- ===== src/Registro/Fila.antt =====
-- src/util.go: the queue of the log, and what its goroutine writes.
use greenlabs_server.Comum.{
  ℕ, zero, suc, ◌+◌, ◌/◌, ◌%◌, ◌∙◌, ◌-◌, ◌≤◌, ◌≡◌, refl, ap, Bool, true, false, not, ◌&&◌, ◌||◌,
  Option, none, some, List, [], ◌∷◌, ltb, leb, if◌then◌else◌, if_cases, length, take, length-append,
  length-take, All, All-append, subst, arith,
}
use greenlabs_server.Comum.Texto.{Texto, codes, eq_texto}
use greenlabs_server.Registro.{
  RegistroLog, Logs, tamanho_da_fila_de_logs, tamanho_maximo_do_log, intervalo_de_repeticao,
  ha_lugar, por_na_fila, cortar, registrar, registrar_detalhado, concluir_logs, tratar_registro,
  escrever_log, digitos, carimbo, linha_do_log, Curso, inicio, registra, detalha, conclui, escreve,
}

-- The line and the one before it are not a repeat.
abbrev pub longe : ℕ × Texto → List (ℕ × Texto) → Bool
longe e [] = true
longe e (f ∷ s) = not (eq_texto e.1 f.1) || leb intervalo_de_repeticao (e.0 - f.0)

abbrev pub espacada : List (ℕ × Texto) → Bool
espacada [] = true
espacada (e ∷ s) = longe e s && espacada s

abbrev pub ultima_linha : List (ℕ × Texto) → ℕ × Texto
ultima_linha [] = (0, [])
ultima_linha (e ∷ s) = e

abbrev pub Curto : Texto → Type 0
Curto t = length t ≤ tamanho_maximo_do_log

abbrev pub IsLogs : Logs → Type 0
IsLogs l =
    (length l.fila ≤ tamanho_da_fila_de_logs)
    × All (λ r. Curto r.texto) l.fila
    × All (λ (e : ℕ × Texto). length (linha_do_log e) ≤ tamanho_maximo_do_log + 28) l.saida
    × (espacada l.saida ≡ true)
    × (ultima_linha l.saida ≡ (l.ultimo_instante, l.ultimo))

length-digitos : (k n : ℕ) → length (digitos k n) ≡ k
unfolding digitos
length-digitos zero n = refl
length-digitos (suc k) n =
    length-append (digitos k (n / 10)) ((48 + n % 10) ∷ [])
    ∙ ground (arith, length-digitos k (n / 10))

linha-Curto : (e : ℕ × Texto) → Curto e.1 → length (linha_do_log e) ≤ tamanho_maximo_do_log + 28
unfolding linha_do_log carimbo digitos
linha-Curto (agora, texto) c = omega (arith, c, length-append texto (codes "\n"))

corte_bounds : (n : ℕ) (t : Texto) → length (if ltb n (length t) then take n t else t) ≤ n
corte_bounds n t = ground (arith, length-take n t)

cortar-Curto : (t : Texto) → Curto (cortar t)
cortar-Curto t = corte_bounds tamanho_maximo_do_log t

por_na_fila-IsLogs :
    (r : RegistroLog) (l : Logs)
    → Curto r.texto
    → IsLogs l
    → ha_lugar l ≡ true
    → IsLogs (por_na_fila r l)
por_na_fila-IsLogs r l c (a, b, d, e, f) t = (
  ground (arith, t, length-append l.fila (r ∷ [])),
  All-append (λ r. Curto r.texto) l.fila (r ∷ []) b (c, tt),
  d,
  e,
  f,
)

registrar-IsLogs : (t : Texto) (l : Logs) → IsLogs l → IsLogs (registrar t l)
unfolding registrar
registrar-IsLogs t l h =
    if_cases IsLogs (ha_lugar l)
      (por_na_fila-IsLogs (record { texto = cortar t; concluido = none }) l (cortar-Curto t) h)
      (λ _. h)

registrar_detalhado-IsLogs :
    (debug t : Texto) (l : Logs) → IsLogs l → IsLogs (registrar_detalhado debug t l)
unfolding registrar_detalhado
registrar_detalhado-IsLogs debug t l h =
    if_cases IsLogs (eq_texto debug (codes "1")) (λ _. registrar-IsLogs t l h) (λ _. h)

concluir_logs-IsLogs : (c : ℕ) (l : Logs) → IsLogs l → IsLogs (concluir_logs c l).0
unfolding concluir_logs
concluir_logs-IsLogs c l h =
    if_cases (λ (r : Logs × Bool). IsLogs r.0) (ha_lugar l)
      (por_na_fila-IsLogs (record { texto = []; concluido = some c }) l (omega arith) h) (λ _. h)

longe_ou : (b : Bool) (a n : ℕ) → (b && ltb a n) ≡ false → (not b || leb n a) ≡ true
longe_ou b a n e = ground (arith, e)

longe_lem :
    (agora : ℕ) (t : Texto) (s : List (ℕ × Texto)) (n : ℕ) (u : Texto)
    → ultima_linha s ≡ (n, u)
    → (eq_texto t u && ltb (agora - n) intervalo_de_repeticao) ≡ false
    → longe (agora, t) s ≡ true
longe_lem agora t [] n u e f = refl
longe_lem agora t (x ∷ s) n u e f =
    let instante : x.0 ≡ n = ap (λ (p : ℕ × Texto). p.0) e in
    let texto : x.1 ≡ u = ap (λ (p : ℕ × Texto). p.1) e in
    rw (instante, texto) (longe_ou (eq_texto t u) (agora - n) intervalo_de_repeticao f)

tratar_registro-IsLogs :
    (agora : ℕ) (r : RegistroLog) (l : Logs)
    → Curto r.texto
    → IsLogs l
    → IsLogs (tratar_registro agora r l)
unfolding tratar_registro
tratar_registro-IsLogs agora r l c (a, b, d, e, f) = caso r.concluido
  where
    caso :
        (o : Option ℕ)
        → IsLogs (elim o [
          | some c ↦ record l { fechados = c ∷ l.fechados }
          | none ↦
              if eq_texto r.texto l.ultimo && ltb (agora - l.ultimo_instante) intervalo_de_repeticao
              then l
              else record l {
                ultimo = r.texto;
                ultimo_instante = agora;
                saida = (agora, r.texto) ∷ l.saida;
              }
        ])
    caso (some k) = (a, b, d, e, f)
    caso none =
        if_cases IsLogs
          (eq_texto r.texto l.ultimo && ltb (agora - l.ultimo_instante) intervalo_de_repeticao)
          (λ _. (a, b, d, e, f))
          (λ t. (
            a,
            b,
            (linha-Curto (agora, r.texto) c, d),
            ground (arith, longe_lem agora r.texto l.saida l.ultimo_instante l.ultimo f t, e),
            refl,
          ))

escrever_log-IsLogs : (agora : ℕ) (l : Logs) → IsLogs l → IsLogs (escrever_log agora l)
unfolding escrever_log
escrever_log-IsLogs agora l h = caso l.fila refl
  where
    caso :
        (q : List RegistroLog)
        → l.fila ≡ q
        → IsLogs
            (elim q [ [] ↦ l | r ∷ resto ↦ tratar_registro agora r (record l { fila = resto }) ])
    caso [] k = h
    caso (r ∷ resto) k =
        let (a, b, d, e, f) = h in
        let (a', b') =
          subst
            (λ (q : List RegistroLog).
              (length q ≤ tamanho_da_fila_de_logs) × All (λ r. Curto r.texto) q)
            k (a, b) in
        tratar_registro-IsLogs agora r (record l { fila = resto }) b'.0
          (omega (arith, a'), b'.1, d, e, f)

-- Whatever is logged and however the goroutine is scheduled: the queue holds at most 128 records,
-- every text in it has at most 2048 bytes, every line written has at most 28 bytes more, those of its
-- time stamp and its end, and a line with the text of the one before it comes at least five seconds
-- later.
pub Curso-IsLogs : {ps : List Texto} {l : Logs} → Curso ps l → IsLogs l
Curso-IsLogs inicio = (omega arith, tt, tt, refl, refl)
Curso-IsLogs (registra {ps} {l} t c) = registrar-IsLogs t l (Curso-IsLogs c)
Curso-IsLogs (detalha {ps} {l} debug t c) = registrar_detalhado-IsLogs debug t l (Curso-IsLogs c)
Curso-IsLogs (conclui {ps} {l} k c) = concluir_logs-IsLogs k l (Curso-IsLogs c)
Curso-IsLogs (escreve {ps} {l} agora c) = escrever_log-IsLogs agora l (Curso-IsLogs c)
