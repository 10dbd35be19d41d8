-- ===== src/Websocket/Escrita/Entrega.antt =====
-- src/websocket.go: what reaches the wire, and in which order.
use greenlabs_server.Comum.{
  subst, subst₂, ℕ, ◌-◌, ◌≤◌, ◌≡◌, refl, sym, ◌∙◌, ap, ◌⊎◌, inl, inr, true, false, Option, none,
  some, List, [], ◌∷◌, ◌++◌, arith, length, length-append, append-nil, append_assoc, leb,
  Bool-cases, take, drop, take-append-drop,
}
use greenlabs_server.Websocket.{
  Conn, QuadroSaida, Erro, Rede, nova_conn, rede_fechada, escrita_falhou, fechar, enfileirar,
}
use greenlabs_server.Websocket.Fila.{Enfileirou, enfileirar-Enfileirou}
use greenlabs_server.Websocket.Escrita.Ordem.{escrita}
use greenlabs_server.Websocket.Escrita.{
  bytes_do_quadro, escrever_quadro, Enlace, Evento, enfileira, fecha, despacha, desliga, retirar,
  drenar_laco, drenar, encerrar_rede, despachar, despachar_fila, passo, executar, aceito, aceitos,
}

-- The frames of a list, one behind the other on the wire.
unfoldable pub na_linha : List QuadroSaida → List ℕ
na_linha [] = []
na_linha (q ∷ qs) = bytes_do_quadro q ++ na_linha qs

pub na_linha-append : (xs ys : List QuadroSaida) → na_linha (xs ++ ys) ≡ na_linha xs ++ na_linha ys
unfolding na_linha
na_linha-append [] ys = refl
na_linha-append (x ∷ xs) ys = rw (na_linha-append xs ys, append_assoc)

-- A write sends the whole frame, or fails after a part of it.
escrever_quadro_casos :
    (q : QuadroSaida) (r : Rede)
    → (((escrever_quadro q r).1 ≡ none)
        × ((escrever_quadro q r).0.enviado ≡ r.enviado ++ bytes_do_quadro q))
      ⊎ ((x : Erro) × ((escrever_quadro q r).1 ≡ some x)
          × (resto : List ℕ) × ((escrever_quadro q r).0.enviado ++ resto
              ≡ r.enviado ++ bytes_do_quadro q))
unfolding escrever_quadro
escrever_quadro_casos q r = elim (Bool-cases r.fechada) [
  | inl f ↦ inr (rede_fechada, ground arith, bytes_do_quadro q, ground arith)
  | inr f ↦ elim (Bool-cases (leb (length (bytes_do_quadro q)) r.capacidade)) [
    | inl g ↦ inl (ground arith, ground arith)
    | inr g ↦ inr (
      escrita_falhou,
      ground arith,
      drop r.capacidade (bytes_do_quadro q),
      ground (
        arith,
        append_assoc r.enviado (take r.capacidade (bytes_do_quadro q))
            (drop r.capacidade (bytes_do_quadro q)),
        take-append-drop r.capacidade (bytes_do_quadro q),
      ),
    )
  ]
]

-- `enviado` begins `tudo`.
abbrev pub Comeca : List ℕ → List ℕ → Type 0
Comeca enviado tudo = (resto : List ℕ) × (enviado ++ resto ≡ tudo)

Comeca-append : (xs tudo mais : List ℕ) → Comeca xs tudo → Comeca xs (tudo ++ mais)
Comeca-append xs tudo mais (resto, e) =
    (resto ++ mais, sym (append_assoc xs resto mais) ∙ ap (λ (t : List ℕ). t ++ mais) e)

drenar_laco-Comeca :
    (qs : List QuadroSaida) (c : Conn)
    → Comeca (drenar_laco qs c).rede.enviado (c.rede.enviado ++ na_linha qs)
unfolding drenar_laco na_linha
drenar_laco-Comeca [] c = ([], refl)
drenar_laco-Comeca (q ∷ qs) c = elim (escrever_quadro_casos q c.rede) [
  | inl (f, g) ↦
      rw (f, drenar_laco)
        (let (resto, h) = drenar_laco-Comeca qs (escrita q qs c) in
          (resto, h ∙ rw g (append_assoc c.rede.enviado (bytes_do_quadro q) (na_linha qs))))
  | inr (x, f, resto, g) ↦
      rw (f, drenar_laco)
        (let (mais, h) = Comeca-append _ _ (na_linha qs) (resto, g) in
          (mais, h ∙ append_assoc c.rede.enviado (bytes_do_quadro q) (na_linha qs)))
]

-- While the writer runs, what left and what waits make up `tudo`; once it returned, what left
-- begins `tudo`.
abbrev pub EmOrdem : Enlace → List ℕ → Type 0
EmOrdem l tudo =
    ((l.escrevendo ≡ true) × (l.conn.rede.enviado ++ na_linha l.conn.saida ≡ tudo))
    ⊎ ((l.escrevendo ≡ false) × Comeca l.conn.rede.enviado tudo)

EmOrdem-Comeca : (l : Enlace) (tudo : List ℕ) → EmOrdem l tudo → Comeca l.conn.rede.enviado tudo
EmOrdem-Comeca l tudo (inl (_, e)) = (na_linha l.conn.saida, e)
EmOrdem-Comeca l tudo (inr (_, c)) = c

entra_atras :
    (q : QuadroSaida) (c c' : Conn) (tudo : List ℕ)
    → c'.rede ≡ c.rede
    → c'.saida ≡ c.saida ++ (q ∷ [])
    → c.rede.enviado ++ na_linha c.saida ≡ tudo
    → c'.rede.enviado ++ na_linha c'.saida ≡ tudo ++ na_linha (q ∷ [])
entra_atras q c c' tudo er es h =
    ap (λ (r : Rede). r.enviado ++ na_linha c'.saida) er
    ∙ ap (λ (s : List QuadroSaida). c.rede.enviado ++ na_linha s) es
    ∙ ap (◌++◌ c.rede.enviado) (na_linha-append c.saida (q ∷ []))
    ∙ sym (append_assoc c.rede.enviado (na_linha c.saida) (na_linha (q ∷ [])))
    ∙ ap (λ (t : List ℕ). t ++ na_linha (q ∷ [])) h

-- What a call of `enfileirar` leaves of the order, whichever branch it took.
abbrev aceito_de : QuadroSaida → Option Erro → List QuadroSaida
aceito_de q e = elim e [ none ↦ q ∷ [] | some _ ↦ [] ]

Enfileirou-EmOrdem :
    (q : QuadroSaida) (l : Enlace) (tudo : List ℕ) (c' : Conn) (e : Option Erro)
    → EmOrdem l tudo
    → Enfileirou q l.conn (c', e)
    → EmOrdem (record l { conn = c' }) (tudo ++ na_linha (aceito_de q e))
Enfileirou-EmOrdem q l tudo c' e (inl (w, h)) (inl (f, _, _, er, es, _, _)) =
    rw f (inl (w, entra_atras q l.conn c' tudo er es h))
Enfileirou-EmOrdem q l tudo c' e (inr (w, (resto, h))) (inl (f, _, _, er, es, _, _)) =
    let d : Comeca c'.rede.enviado tudo =
      subst (λ (r : Rede). Comeca r.enviado tudo) (sym er) (resto, h) in
    inr (w, Comeca-append _ tudo _ d)
Enfileirou-EmOrdem q l tudo c' e h (inr (inl (f, _, g))) =
    subst₂
      (λ (x : Conn) (o : Option Erro).
        EmOrdem (record l { conn = x }) (tudo ++ na_linha (aceito_de q o)))
      (sym g) (sym f) (unfold na_linha in rw append-nil h)
Enfileirou-EmOrdem q l tudo c' e h (inr (inr (f, _, g, _))) =
    subst₂
      (λ (x : Conn) (o : Option Erro).
        EmOrdem (record l { conn = x }) (tudo ++ na_linha (aceito_de q o)))
      (sym g) (sym f) (unfold na_linha fechar in rw append-nil h)

enfileira-EmOrdem :
    (q : QuadroSaida) (l : Enlace) (tudo : List ℕ)
    → EmOrdem l tudo
    → EmOrdem (passo (enfileira q) l) (tudo ++ na_linha (aceito (enfileira q) l.conn))
unfolding passo aceito
enfileira-EmOrdem q l tudo h =
    Enfileirou-EmOrdem q l tudo (enfileirar q l.conn).0 (enfileirar q l.conn).1 h
      (enfileirar-Enfileirou q l.conn)

despacha-EmOrdem :
    (qs : List QuadroSaida) (l : Enlace) (tudo : List ℕ)
    → l.conn.saida ≡ qs
    → l.escrevendo ≡ true
    → l.conn.rede.enviado ++ na_linha qs ≡ tudo
    → EmOrdem (despachar_fila qs l.conn) tudo
unfolding despachar_fila na_linha
despacha-EmOrdem [] l tudo e w h = inl (refl, rw e h)
despacha-EmOrdem (q ∷ qs) l tudo e w h = elim (escrever_quadro_casos q l.conn.rede) [
  | inl (f, g) ↦
      rw (f, despachar)
        (inl (
          refl,
          unfold retirar in
              rw g (append_assoc l.conn.rede.enviado (bytes_do_quadro q) (na_linha qs) ∙ h),
        ))
  | inr (x, f, resto, g) ↦
      rw (f, despachar)
        (inr (
          refl,
          unfold encerrar_rede fechar in
              (let (mais, k) = Comeca-append _ _ (na_linha qs) (resto, g) in
                (mais, k ∙ append_assoc l.conn.rede.enviado (bytes_do_quadro q) (na_linha qs) ∙ h)),
        ))
]

desliga-EmOrdem : (l : Enlace) (tudo : List ℕ) → EmOrdem l tudo → EmOrdem (passo desliga l) tudo
unfolding passo encerrar_rede drenar
desliga-EmOrdem l tudo (inr (w, c)) = simp w (inr (refl, c))
desliga-EmOrdem l tudo (inl (w, e)) = elim (Bool-cases l.conn.fechado) [
  | inl f ↦ simp (w, f) (inr (refl, subst (Comeca _) e (drenar_laco-Comeca l.conn.saida l.conn)))
  | inr f ↦ simp (w, f) (inl (refl, e))
]

passo-EmOrdem :
    (e : Evento) (l : Enlace) (tudo : List ℕ)
    → EmOrdem l tudo
    → EmOrdem (passo e l) (tudo ++ na_linha (aceito e l.conn))
passo-EmOrdem (enfileira q) l tudo h = enfileira-EmOrdem q l tudo h
passo-EmOrdem fecha l tudo h = unfold passo aceito na_linha fechar in rw append-nil h
passo-EmOrdem despacha l tudo (inl (w, h)) =
    unfold passo aceito na_linha in
    rw append-nil (simp w (despacha-EmOrdem l.conn.saida l tudo refl w h))
passo-EmOrdem despacha l tudo (inr (w, c)) =
    unfold passo aceito na_linha in rw append-nil (simp w (inr (refl, c)))
passo-EmOrdem desliga l tudo h = unfold aceito na_linha in rw append-nil (desliga-EmOrdem l tudo h)

executar-EmOrdem :
    (es : List Evento) (l : Enlace) (tudo : List ℕ)
    → EmOrdem l tudo
    → EmOrdem (executar es l) (tudo ++ na_linha (aceitos es l))
unfolding executar aceitos
executar-EmOrdem [] l tudo h = unfold na_linha in rw append-nil h
executar-EmOrdem (e ∷ es) l tudo h =
    rw (na_linha-append (aceito e l.conn) (aceitos es (passo e l)), ← append_assoc)
      (executar-EmOrdem es (passo e l) (tudo ++ na_linha (aceito e l.conn))
        (passo-EmOrdem e l tudo h))

abbrev pub novo_enlace : Rede → Enlace
novo_enlace r = record { conn = nova_conn r; escrevendo = true }

-- On a new connection, whatever the other goroutines do, the bytes that left are a prefix of the
-- encodings of the accepted frames in the order of acceptance; as long as the writer runs the frames
-- that are missing are exactly those still queued.
pub executar_novo-EmOrdem :
    (es : List Evento) (r : Rede)
    → r.enviado ≡ []
    → EmOrdem (executar es (novo_enlace r)) (na_linha (aceitos es (novo_enlace r)))
executar_novo-EmOrdem es r e =
    executar-EmOrdem es (novo_enlace r) []
      (inl (refl, unfold nova_conn na_linha in rw append-nil e))

escreve_inteiro :
    (q : QuadroSaida) (r : Rede)
    → r.fechada ≡ false
    → length (bytes_do_quadro q) ≤ r.capacidade
    → ((escrever_quadro q r).1 ≡ none)
      × ((escrever_quadro q r).0.fechada ≡ false)
      × ((escrever_quadro q r).0.enviado ≡ r.enviado ++ bytes_do_quadro q)
      × ((escrever_quadro q r).0.capacidade ≡ r.capacidade - length (bytes_do_quadro q))
unfolding escrever_quadro
escreve_inteiro q r f h = ground arith

drenar_laco_completo :
    (qs : List QuadroSaida) (c : Conn)
    → c.saida ≡ qs
    → c.rede.fechada ≡ false
    → length (na_linha qs) ≤ c.rede.capacidade
    → ((drenar_laco qs c).rede.enviado ≡ c.rede.enviado ++ na_linha qs)
      × ((drenar_laco qs c).saida ≡ [])
unfolding drenar_laco na_linha
drenar_laco_completo [] c e f h = (sym (append-nil c.rede.enviado), e)
drenar_laco_completo (q ∷ qs) c e f h =
    let l = length-append (bytes_do_quadro q) (na_linha qs) in
    let (feito, aberta, enviado, resta) = escreve_inteiro q c.rede f (omega (arith, l)) in
    let (g, k) =
      drenar_laco_completo qs (escrita q qs c) (unfold retirar in refl) aberta
        (omega (arith, l, resta)) in
    rw (feito, drenar_laco)
      (g ∙ rw enviado (append_assoc c.rede.enviado (bytes_do_quadro q) (na_linha qs)), k)

-- Over a socket that is open and takes as many bytes as wait, `drenar` sends all of them, in
-- order, and leaves the queue empty.
pub drenar_completo :
    (c : Conn)
    → c.rede.fechada ≡ false
    → length (na_linha c.saida) ≤ c.rede.capacidade
    → ((drenar c).rede.enviado ≡ c.rede.enviado ++ na_linha c.saida) × ((drenar c).saida ≡ [])
unfolding drenar
drenar_completo c f h = drenar_laco_completo c.saida c refl f h
