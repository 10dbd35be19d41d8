-- ===== src/Tunel/Copia/Inteira.antt =====
-- src/cloudflared.go, BaixarCloudflared: what is found at the copy's path, in any state of a download.
use greenlabs_server.Comum.{
  ℕ, zero, suc, ◌≡◌, ◌⊎◌, inl, inr, refl, sym, ap, subst, not, ◌∙◌, Bool, true, false, ◌&&◌, Option,
  none, some, List, [], ◌∷◌, ◌++◌, append_assoc, append-nil, length, length-append, if◌then◌else◌,
  if_cases, All, All-append, arith,
}
use greenlabs_server.Comum.Texto.{Texto, codes, eq_texto, eq_texto_iff, eq_texto_refl, vazio}
use greenlabs_server.Comum.Mapa.{lookup, insert, erase, lookup-insert, lookup-erase}
use greenlabs_server.Tunel.Copia.{
  Maquina, Arquivos, Resposta, Download, Baixada, conteudo, parcial, copiar_corpo, parada, renomear,
  gravar, caminho_do_cloudflared, arquivo_do_cloudflared, baixar_cloudflared,
}

abbrev pub juntar : List (List ℕ) → List ℕ
juntar [] = []
juntar (p ∷ ps) = p ++ juntar ps

parcial-ne : (d : Texto) → eq_texto (parcial d) d ≡ false
parcial-ne d = ground (
  arith,
  eq_texto_iff (parcial d) d,
  length-append d (codes ".parcial"),
  λ (e : parcial d ≡ d). ap (λ (s : Texto). length s) e,
)

conteudo-insert : (t : Texto) (bs : List ℕ) (fs : Arquivos) → conteudo t (insert t bs fs) ≡ bs
unfolding conteudo
conteudo-insert t bs fs = ground (arith, lookup-insert t t bs fs, eq_texto_refl t)

-- The files but one.
copiar_corpo_fora :
    (t x : Texto) (n : ℕ) (ps : List (List ℕ)) (i : Bool) (fs : Arquivos)
    → eq_texto t x ≡ false
    → All (λ f. lookup x f ≡ lookup x fs) (copiar_corpo t n ps i fs).0
      × (lookup x (copiar_corpo t n ps i fs).1 ≡ lookup x fs)
unfolding copiar_corpo
copiar_corpo_fora t x n [] i fs e = (tt, refl)
copiar_corpo_fora t x zero (p ∷ ps) i fs e = (tt, refl)
copiar_corpo_fora t x (suc n) (p ∷ ps) i fs e =
    let fs1 = insert t (conteudo t fs ++ p) fs in
    let igual : lookup x fs1 ≡ lookup x fs =
      ground (arith, lookup-insert t x (conteudo t fs ++ p) fs, e) in
    let (a, b) = copiar_corpo_fora t x n ps i fs1 e in
    ((igual, todos fs1 igual (copiar_corpo t n ps i fs1).0 a), b ∙ igual)
  where
    todos :
        (f1 : Arquivos)
        → lookup x f1 ≡ lookup x fs
        → (es : List Arquivos) → All (λ f. lookup x f ≡ lookup x f1) es
        → All (λ f. lookup x f ≡ lookup x fs) es
    todos f1 g [] h = tt
    todos f1 g (f ∷ es) (h, hs) = (h ∙ g, todos f1 g es hs)

-- A copy without an error has all of a body that came whole.
copiar_corpo_tudo :
    (t : Texto) (n : ℕ) (ps : List (List ℕ)) (i : Bool) (fs : Arquivos)
    → (copiar_corpo t n ps i fs).2 ≡ true
    → (conteudo t (copiar_corpo t n ps i fs).1 ≡ conteudo t fs ++ juntar ps) × (i ≡ true)
unfolding copiar_corpo
copiar_corpo_tudo t n [] i fs e = (sym (append-nil (conteudo t fs)), e)
copiar_corpo_tudo t zero (p ∷ ps) i fs e = cc
copiar_corpo_tudo t (suc n) (p ∷ ps) i fs e =
    let fs1 = insert t (conteudo t fs ++ p) fs in
    let (a, b) = copiar_corpo_tudo t n ps i fs1 e in
    (
      a
          ∙ ap (λ (s : List ℕ). s ++ juntar ps) (conteudo-insert t (conteudo t fs ++ p) fs)
          ∙ append_assoc (conteudo t fs) p (juntar ps),
      b,
    )

-- All of a body that came whole is at the path.
abbrev pub Completa : Download → Texto → Arquivos → Type 0
Completa d destino f =
    (r : Resposta) × (d.resposta ≡ some r)
    × (r.inteira ≡ true)
    × (lookup destino f ≡ some (juntar r.pedacos))

abbrev pub Certa : Download → Texto → Arquivos → Arquivos → Type 0
Certa d destino fs f = (lookup destino f ≡ lookup destino fs) ⊎ Completa d destino f

-- By what the download answers.
abbrev pub Respondeu : Download → Texto → Arquivos → Arquivos → Option Texto → Type 0
Respondeu d destino fs f none = lookup destino f ≡ lookup destino fs
Respondeu d destino fs f (some c) = (c ≡ destino) × Completa d destino f

pub record IsInteira (d : Download) (destino : Texto) (fs : Arquivos) (b : Baixada) : Type 0 where
  pub sempre : All (Certa d destino fs) b.estados
  pub ao_fim : Respondeu d destino fs b.final b.caminho
  pub outros :
      (x : Texto)
      → eq_texto destino x ≡ false
      → eq_texto (parcial destino) x ≡ false
      → lookup x b.final ≡ lookup x fs
  pub sem_resto :
      (b.final ≡ fs)
      ⊎ ((lookup (parcial destino) b.final ≡ none) ⊎ ((d.remove ≡ false) × (b.caminho ≡ none)))

parada-IsInteira :
    (d : Download) (destino : Texto) (fs : Arquivos) → IsInteira d destino fs (parada fs)
parada-IsInteira d destino fs = record {
  sempre = tt;
  ao_fim = refl;
  outros = λ x e g. refl;
  sem_resto = inl refl;
}

-- Of states at which the path is as before, each is right.
antes-Certa :
    (d : Download) (destino : Texto) (fs f0 : Arquivos) (es : List Arquivos)
    → lookup destino f0 ≡ lookup destino fs
    → All (λ f. lookup destino f ≡ lookup destino f0) es
    → All (Certa d destino fs) es
antes-Certa d destino fs f0 [] g h = tt
antes-Certa d destino fs f0 (f ∷ es) g (h, hs) = (inl (h ∙ g), antes-Certa d destino fs f0 es g hs)

gravar-IsInteira :
    (d : Download) (destino : Texto) (r : Resposta) (fs : Arquivos)
    → d.resposta ≡ some r
    → IsInteira d destino fs (gravar destino d r fs)
unfolding gravar
gravar-IsInteira d destino r fs e =
    if_cases (IsInteira d destino fs) (not d.abre) (λ _. parada-IsInteira d destino fs)
      (λ _.
        if_cases (IsInteira d destino fs) (copia.2 && d.fecha && d.renomeia)
          (λ k. record {
            sempre = (
              inl igual,
              All-append (Certa d destino fs) copia.0 (pronto ∷ []) meio (inr (inteira k), tt),
            );
            ao_fim = (refl, inteira k);
            outros = λ x a b.
                unfold renomear in
                lookup-insert destino x (conteudo t copia.1) (erase t copia.1)
                ∙ ground (arith, a, b, lookup-erase t x copia.1, fora x b);
            sem_resto = inr (
                inl (
                  unfold renomear in
                  lookup-insert destino t (conteudo t copia.1) (erase t copia.1)
                  ∙ ground (arith, outro, lookup-erase t t copia.1, eq_texto_refl t)));
          })
          (λ k. record {
            sempre = (
              inl igual,
              All-append (Certa d destino fs) copia.0 (limpo ∷ []) meio (inl limpa, tt),
            );
            ao_fim = limpa;
            outros = λ x a b. limpo_fora x b ∙ fora x b;
            sem_resto = inr (sobra d.remove refl);
          }))
  where
    t : Texto
    t = parcial destino

    aberto : Arquivos
    aberto = insert t [] fs

    copia : List Arquivos × Arquivos × Bool
    copia = copiar_corpo t d.escritas r.pedacos r.inteira aberto

    pronto : Arquivos
    pronto = renomear t destino copia.1

    outro : eq_texto destino t ≡ false
    outro = ground (arith, parcial-ne destino, eq_texto_iff t destino, eq_texto_iff destino t)

    fora : (x : Texto) → eq_texto t x ≡ false → lookup x copia.1 ≡ lookup x fs
    fora x b =
        (copiar_corpo_fora t x d.escritas r.pedacos r.inteira aberto b).1
        ∙ ground (arith, lookup-insert t x [] fs, b)

    igual : lookup destino aberto ≡ lookup destino fs
    igual = ground (arith, lookup-insert t destino [] fs, parcial-ne destino)

    meio : All (Certa d destino fs) copia.0
    meio =
        antes-Certa d destino fs aberto copia.0 igual
          (copiar_corpo_fora t destino d.escritas r.pedacos r.inteira aberto (parcial-ne destino)).0

    limpo : Arquivos
    limpo = if d.remove then erase t copia.1 else copia.1

    limpo_fora : (x : Texto) → eq_texto t x ≡ false → lookup x limpo ≡ lookup x copia.1
    limpo_fora x b =
        if_cases (λ (f : Arquivos). lookup x f ≡ lookup x copia.1) d.remove
          (λ _. ground (arith, b, lookup-erase t x copia.1)) (λ _. refl)

    limpa : lookup destino limpo ≡ lookup destino fs
    limpa = limpo_fora destino (parcial-ne destino) ∙ fora destino (parcial-ne destino)

    sobra :
        (b : Bool)
        → d.remove ≡ b
        → (lookup t (if b then erase t copia.1 else copia.1) ≡ none)
          ⊎ ((d.remove ≡ false) × ◌≡◌ {A = Option Texto} none none)
    sobra true e = inl (ground (arith, lookup-erase t t copia.1, eq_texto_refl t))
    sobra false e = inr (e, refl)

    inteira : (copia.2 && d.fecha && d.renomeia) ≡ true → Completa d destino pronto
    inteira k =
        let (a, b) =
          copiar_corpo_tudo t d.escritas r.pedacos r.inteira aberto (ground (arith, k)) in
        let c : conteudo t copia.1 ≡ juntar r.pedacos =
          a ∙ ap (λ (s : List ℕ). s ++ juntar r.pedacos) (conteudo-insert t [] fs) in
        (
          r,
          e,
          b,
          unfold renomear in
              ground (
                arith,
                c,
                lookup-insert destino destino (conteudo t copia.1) (erase t copia.1),
                eq_texto_refl destino,
              ),
        )

-- BaixarCloudflared, whatever the network and the disk do, for the path that the copy goes to: in
-- each state of the files, and so wherever the program is interrupted, the path holds what it held
-- before or all of a body that came whole; it holds the latter behind a download that answers with
-- the path, and the former behind one that fails; no other file but the partial one is changed,
-- and none of that stays unless the disk refuses to take it away behind a download that fails.
pub baixar_cloudflared-IsInteira :
    (m : Maquina) (d : Download) (fs : Arquivos) (destino : Texto)
    → caminho_do_cloudflared m ≡ some destino
    → IsInteira d destino fs (baixar_cloudflared m d fs)
unfolding baixar_cloudflared
baixar_cloudflared-IsInteira m d fs destino e =
    if_cases (IsInteira d destino fs) (vazio (arquivo_do_cloudflared m.sistema))
      (λ _. parada-IsInteira d destino fs) (λ _. onde (caminho_do_cloudflared m) e)
  where
    respondida :
        (o : Option Resposta)
        → d.resposta ≡ o
        → IsInteira d destino fs (elim o [
          | none ↦ parada fs
          | some r ↦ if r.codigo_ok then gravar destino d r fs else parada fs
        ])
    respondida none k = parada-IsInteira d destino fs
    respondida (some r) k =
        if_cases (IsInteira d destino fs) r.codigo_ok (λ _. gravar-IsInteira d destino r fs k)
          (λ _. parada-IsInteira d destino fs)

    onde :
        (o : Option Texto)
        → o ≡ some destino
        → IsInteira d destino fs (elim o [
          | none ↦ parada fs
          | some c ↦ elim d.resposta [
            | none ↦ parada fs
            | some r ↦ if r.codigo_ok then gravar c d r fs else parada fs
          ]
        ])
    onde none k = cc
    onde (some c) k =
        let igual : c ≡ destino = cc in
        subst
          (λ (x : Texto). IsInteira d destino fs (elim d.resposta [
            | none ↦ parada fs
            | some r ↦ if r.codigo_ok then gravar x d r fs else parada fs
          ]))
          (sym igual) (respondida d.resposta refl)
