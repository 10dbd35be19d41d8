-- ===== src/Registro/Ordem.antt =====
-- src/util.go: the order of the lines of the log.
use mathlib.Core.List.{Sublist}
use mathlib.Core.List.Sublist
use greenlabs_server.Comum.{
  ℕ, ◌-◌, ◌≡◌, refl, sym, Bool, ◌&&◌, Option, none, some, List, [], ◌∷◌, ◌++◌, map, ltb,
  if◌then◌else◌, if_cases, subst,
}
use greenlabs_server.Comum.Texto.{Texto, codes, eq_texto}
use greenlabs_server.Registro.{
  RegistroLog, Logs, intervalo_de_repeticao, ha_lugar, cortar, registrar, registrar_detalhado,
  concluir_logs, tratar_registro, escrever_log, Curso, inicio, registra, detalha, conclui, escreve,
}

-- The texts of the queue, the last one first, in front of those written.
abbrev pub do_mais_novo : List RegistroLog → List Texto → List Texto
do_mais_novo [] s = s
do_mais_novo (r ∷ q) s = do_mais_novo q (elim r.concluido [ none ↦ r.texto ∷ s | some c ↦ s ])

abbrev pub textos : Logs → List Texto
textos l = do_mais_novo l.fila (map (λ (e : ℕ × Texto). e.1) l.saida)

do_mais_novo_texto :
    (q : List RegistroLog) (t : Texto) (s : List Texto)
    → do_mais_novo (q ++ (record { texto = t; concluido = none } ∷ [])) s ≡ t ∷ do_mais_novo q s
do_mais_novo_texto [] t s = refl
do_mais_novo_texto (r ∷ q) t s =
    do_mais_novo_texto q t (elim r.concluido [ none ↦ r.texto ∷ s | some c ↦ s ])

do_mais_novo_marca :
    (q : List RegistroLog) (t : Texto) (c : ℕ) (s : List Texto)
    → do_mais_novo (q ++ (record { texto = t; concluido = some c } ∷ [])) s ≡ do_mais_novo q s
do_mais_novo_marca [] t c s = refl
do_mais_novo_marca (r ∷ q) t c s =
    do_mais_novo_marca q t c (elim r.concluido [ none ↦ r.texto ∷ s | some c ↦ s ])

do_mais_novo-sublist :
    (q : List RegistroLog) {s s' : List Texto}
    → Sublist s s'
    → Sublist (do_mais_novo q s) (do_mais_novo q s')
do_mais_novo-sublist [] h = h
do_mais_novo-sublist (r ∷ q) {s} {s'} h = do_mais_novo-sublist q (caso r.concluido)
  where
    caso :
        (o : Option ℕ)
        → Sublist
            (elim o [ none ↦ r.texto ∷ s | some c ↦ s ])
            (elim o [ none ↦ r.texto ∷ s' | some c ↦ s' ])
    caso none = Sublist.cons-cons r.texto h
    caso (some c) = h

registrar-sublist :
    (t : Texto) (l : Logs) (ps : List Texto)
    → Sublist (textos l) ps
    → Sublist (textos (registrar t l)) (cortar t ∷ ps)
unfolding registrar
registrar-sublist t l ps h =
    if_cases (λ (m : Logs). Sublist (textos m) (cortar t ∷ ps)) (ha_lugar l)
      (λ _.
        subst (λ (s : List Texto). Sublist s (cortar t ∷ ps))
          (sym (do_mais_novo_texto l.fila (cortar t) (map (λ (e : ℕ × Texto). e.1) l.saida)))
          (Sublist.cons-cons (cortar t) h))
      (λ _. Sublist.cons (cortar t) h)

registrar_detalhado-sublist :
    (debug t : Texto) (l : Logs) (ps : List Texto)
    → Sublist (textos l) ps
    → Sublist (textos (registrar_detalhado debug t l)) (cortar t ∷ ps)
unfolding registrar_detalhado
registrar_detalhado-sublist debug t l ps h =
    if_cases (λ (m : Logs). Sublist (textos m) (cortar t ∷ ps)) (eq_texto debug (codes "1"))
      (λ _. registrar-sublist t l ps h) (λ _. Sublist.cons (cortar t) h)

concluir_logs-sublist :
    (c : ℕ) (l : Logs) (ps : List Texto)
    → Sublist (textos l) ps
    → Sublist (textos (concluir_logs c l).0) ps
unfolding concluir_logs
concluir_logs-sublist c l ps h =
    if_cases (λ (r : Logs × Bool). Sublist (textos r.0) ps) (ha_lugar l)
      (λ _.
        subst (λ (s : List Texto). Sublist s ps)
          (sym (do_mais_novo_marca l.fila [] c (map (λ (e : ℕ × Texto). e.1) l.saida))) h)
      (λ _. h)

tratar_registro-sublist :
    (agora : ℕ) (r : RegistroLog) (q : List RegistroLog) (l : Logs)
    → l.fila ≡ r ∷ q
    → Sublist (textos (tratar_registro agora r (record l { fila = q }))) (textos l)
unfolding tratar_registro
tratar_registro-sublist agora r q l k =
    subst
      (λ (f : List RegistroLog).
        Sublist (textos (tratar_registro agora r (record l { fila = q })))
          (do_mais_novo f escritos))
      (sym k) (caso r.concluido)
  where
    escritos : List Texto
    escritos = map (λ (e : ℕ × Texto). e.1) l.saida

    caso :
        (o : Option ℕ)
        → Sublist
            (textos (elim o [
              | some c ↦ record l { fila = q; fechados = c ∷ l.fechados }
              | none ↦
                  if eq_texto r.texto l.ultimo
                    && ltb (agora - l.ultimo_instante) intervalo_de_repeticao
                  then record l { fila = q }
                  else record l {
                    fila = q;
                    ultimo = r.texto;
                    ultimo_instante = agora;
                    saida = (agora, r.texto) ∷ l.saida;
                  }
            ]))
            (do_mais_novo q (elim o [ none ↦ r.texto ∷ escritos | some c ↦ escritos ]))
    caso (some c) = Sublist.refl (do_mais_novo q escritos)
    caso none =
        if_cases (λ (m : Logs). Sublist (textos m) (do_mais_novo q (r.texto ∷ escritos)))
          (eq_texto r.texto l.ultimo && ltb (agora - l.ultimo_instante) intervalo_de_repeticao)
          (λ _. do_mais_novo-sublist q (Sublist.cons r.texto (Sublist.refl escritos)))
          (λ _. Sublist.refl (do_mais_novo q (r.texto ∷ escritos)))

escrever_log-sublist : (agora : ℕ) (l : Logs) → Sublist (textos (escrever_log agora l)) (textos l)
unfolding escrever_log
escrever_log-sublist agora l = caso l.fila refl
  where
    caso :
        (q : List RegistroLog)
        → l.fila ≡ q
        → Sublist
            (textos
              (elim q [ [] ↦ l | r ∷ resto ↦ tratar_registro agora r (record l { fila = resto }) ]))
            (textos l)
    caso [] k = Sublist.refl (textos l)
    caso (r ∷ resto) k = tratar_registro-sublist agora r resto l k

-- Whatever is logged and however the goroutine is scheduled: from the newest to the oldest, the texts
-- that wait in the queue and then those of the lines written are, in this order, among the texts that
-- were given, each cut to 2048 bytes: a text is dropped, and never made up, altered or overtaken.
pub Curso-sublist : {ps : List Texto} {l : Logs} → Curso ps l → Sublist (textos l) (map cortar ps)
Curso-sublist inicio = Sublist.refl []
Curso-sublist (registra {ps} {l} t c) = registrar-sublist t l (map cortar ps) (Curso-sublist c)
Curso-sublist (detalha {ps} {l} debug t c) =
    registrar_detalhado-sublist debug t l (map cortar ps) (Curso-sublist c)
Curso-sublist (conclui {ps} {l} k c) = concluir_logs-sublist k l (map cortar ps) (Curso-sublist c)
Curso-sublist (escreve {ps} {l} agora c) =
    Sublist.trans (escrever_log-sublist agora l) (Curso-sublist c)
