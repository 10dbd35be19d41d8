-- ===== src/Tunel/Anuncio.antt =====
-- src/tunel.go: what IniciarTunel passes on of the lines that the program prints.
use greenlabs_server.Comum.{
  ℕ, ◌≡◌, refl, sym, ap, ◌∙◌, subst, append_assoc, Bool, true, false, Option, none, some, List, [],
  ◌∷◌, ◌++◌, if◌then◌else◌, Bool-cases, Option-cases, inl, inr, arith,
}
use greenlabs_server.Comum.Texto.{Texto, codes, vazio, has_prefix, to_lower}
use greenlabs_server.Tunel.Padroes.{casar_cloudflare, find_string, em_wss}
use greenlabs_server.Tunel.Padroes.Achado.{
  todas_minusculas, tem_esquema, endereco_cloudflare, find_string-endereco, em_wss-endereco,
}
use greenlabs_server.Tunel.Copia.{
  Sistema, Maquina, eh_windows, separador, nome_da_copia, caminho_do_cloudflared,
}
use greenlabs_server.Tunel.{
  separa, tem_separador, base_do_caminho, eh_cloudflared, padrao_do_tunel, procurar_linha, procurar,
}

-- No line of these has a match.
abbrev pub calados : (Texto → Option Texto) → List Texto → Bool
calados casar [] = true
calados casar (l ∷ ls) = if vazio (find_string casar l) then calados casar ls else false

procurar-calados :
    (casar : Texto → Option Texto) (ls ms : List Texto)
    → calados casar ls ≡ true
    → procurar casar none (ls ++ ms) ≡ procurar casar none ms
unfolding procurar procurar_linha
procurar-calados casar [] ms e = refl
procurar-calados casar (l ∷ ls) ms e = ground (arith, procurar-calados casar ls ms, e)

procurar-achado :
    (casar : Texto → Option Texto) (url : Texto) (ls : List Texto)
    → procurar casar (some url) ls ≡ some url
unfolding procurar procurar_linha
procurar-achado casar url [] = refl
procurar-achado casar url (l ∷ ls) = procurar-achado casar url ls

procurar-aqui :
    (casar : Texto → Option Texto) (linha achado : Texto) (ls : List Texto)
    → find_string casar linha ≡ achado
    → vazio achado ≡ false
    → procurar casar none (linha ∷ ls) ≡ some (em_wss achado)
unfolding procurar procurar_linha
procurar-aqui casar linha achado ls e v = rw (e, v) (procurar-achado casar (em_wss achado) ls)

padrao_do_cloudflared :
    (windows : Bool) (provedor : Texto)
    → eh_cloudflared windows provedor ≡ true
    → padrao_do_tunel windows provedor ≡ casar_cloudflare
unfolding padrao_do_tunel
padrao_do_cloudflared windows provedor e = rw e refl

-- With cloudflared as the provider, when lines of its output in which its expression finds nothing are
-- followed by a line with an address https://NAME.trycloudflare.com, with NAME of lower-case letters,
-- digits and dashes, not empty, and no "://" before the address in that line, what is passed on is
-- wss://NAME.trycloudflare.com, whatever stands behind the address in the line and in later lines.
pub procurar-endereco :
    (windows : Bool) (provedor : Texto) (mudas depois : List Texto) (antes nome cauda : Texto)
    → eh_cloudflared windows provedor ≡ true
    → calados casar_cloudflare mudas ≡ true
    → tem_esquema antes ≡ false
    → vazio nome ≡ false
    → todas_minusculas nome ≡ true
    → procurar
        (padrao_do_tunel windows provedor)
        none
        (mudas ++ ((antes ++ (endereco_cloudflare nome ++ cauda)) ∷ depois))
      ≡ some (codes "wss://" ++ (nome ++ codes ".trycloudflare.com"))
procurar-endereco windows provedor mudas depois antes nome cauda p m s v e =
    rw (padrao_do_cloudflared windows provedor p) (
      procurar-calados casar_cloudflare mudas
        ((antes ++ (endereco_cloudflare nome ++ cauda)) ∷ depois) m
      ∙ procurar-aqui casar_cloudflare (antes ++ (endereco_cloudflare nome ++ cauda))
          (endereco_cloudflare nome) depois (find_string-endereco antes nome cauda s v e) refl
      ∙ ap some (em_wss-endereco nome))

tem_separador_meio :
    (windows : Bool) (frente : Texto) (c : ℕ) (nome : Texto)
    → separa windows c ≡ true
    → tem_separador windows (frente ++ (c ∷ nome)) ≡ true
unfolding tem_separador
tem_separador_meio windows [] c nome e = rw e refl
tem_separador_meio windows (x ∷ frente) c nome e =
    ground (arith, tem_separador_meio windows frente c nome e)

base_do_caminho_nome :
    (windows : Bool) (c : ℕ) (nome : Texto)
    → separa windows c ≡ true
    → tem_separador windows nome ≡ false
    → base_do_caminho windows (c ∷ nome) ≡ nome
unfolding base_do_caminho
base_do_caminho_nome windows c nome e f = rw (f, e) refl

base_do_caminho_lem :
    (windows : Bool) (frente : Texto) (c : ℕ) (nome : Texto)
    → separa windows c ≡ true
    → tem_separador windows nome ≡ false
    → base_do_caminho windows (frente ++ (c ∷ nome)) ≡ nome
unfolding base_do_caminho
base_do_caminho_lem windows [] c nome e f = base_do_caminho_nome windows c nome e f
base_do_caminho_lem windows (x ∷ frente) c nome e f =
    rw (tem_separador_meio windows frente c nome e) (base_do_caminho_lem windows frente c nome e f)

eh_cloudflared_nome :
    (windows : Bool) (base : Texto) (c : ℕ) (nome : Texto)
    → separa windows c ≡ true
    → tem_separador windows nome ≡ false
    → has_prefix (to_lower nome) (codes "cloudflared") ≡ true
    → eh_cloudflared windows (base ++ (c ∷ (codes "greenlabs" ++ (c ∷ nome)))) ≡ true
unfolding eh_cloudflared
eh_cloudflared_nome windows base c nome e f h =
    subst (λ (t : Texto). has_prefix (to_lower t) (codes "cloudflared") ≡ true)
      (sym (
        ap (base_do_caminho windows) (sym (append_assoc base (c ∷ codes "greenlabs") (c ∷ nome)))
        ∙ base_do_caminho_lem windows (base ++ (c ∷ codes "greenlabs")) c nome e f))
      h

eh_cloudflared_sistema :
    (s : Sistema) (base : Texto) (windows : Bool)
    → eh_windows s ≡ windows
    → eh_cloudflared
        (eh_windows s)
        (base ++ (separador s ++ (codes "greenlabs" ++ (separador s ++ nome_da_copia s))))
      ≡ true
unfolding nome_da_copia separa tem_separador has_prefix to_lower
eh_cloudflared_sistema s base true e =
    rw e (eh_cloudflared_nome true base 92 (codes "cloudflared.exe") refl refl refl)
eh_cloudflared_sistema s base false e =
    rw e (eh_cloudflared_nome false base b'/' (codes "cloudflared") refl refl refl)

caminho_do_cloudflared_forma :
    (m : Maquina) (destino : Texto)
    → caminho_do_cloudflared m ≡ some destino
    → (base : Texto) × (destino
        ≡ base
          ++ (separador m.sistema
              ++ (codes "greenlabs" ++ (separador m.sistema ++ nome_da_copia m.sistema))))
unfolding caminho_do_cloudflared
caminho_do_cloudflared_forma m destino e = elim (Option-cases m.pasta_de_cache) [
  | inl vazia ↦ absurd (ground (arith, vazia, e))
  | inr (base, tem) ↦ elim (Bool-cases m.cria_pasta) [
    | inl t ↦ (base, ground (arith, tem, t, e))
    | inr f ↦ absurd (ground (arith, tem, f, e))
  ]
]

-- The path of the copy that the server keeps is taken for cloudflared, on every system: its last part
-- begins with that name.
pub copia-IsCloudflared :
    (m : Maquina) (destino : Texto)
    → caminho_do_cloudflared m ≡ some destino
    → eh_cloudflared (eh_windows m.sistema) destino ≡ true
copia-IsCloudflared m destino e =
    let (base, f) = caminho_do_cloudflared_forma m destino e in
    rw f (eh_cloudflared_sistema m.sistema base (eh_windows m.sistema) refl)
