-- ===== src/Tunel/Copia.antt =====
-- src/cloudflared.go: the copy of cloudflared that the server downloads.
-- The file system is a map from a path to the bytes there; its calls may fail as `Download` says. A
-- download gives every state of the files that it goes through, since the program may be interrupted
-- in any of them. The pieces of the body come as io.Copy reads them.
pub mod Inteira
pub mod Progresso
use greenlabs_server.Comum.{
  ℕ, zero, suc, ◌+◌, Bool, true, false, not, ◌&&◌, ◌||◌, Option, none, some, List, [], ◌∷◌, ◌++◌,
  ltb, if◌then◌else◌, length,
}
use greenlabs_server.Comum.Texto.{Texto, codes, eq_texto, vazio}
use greenlabs_server.Comum.Mapa.{Mapa, lookup, insert, erase}

-- runtime.GOOS and runtime.GOARCH.
pub record Sistema : Type 0 where
  pub os : Texto
  pub arch : Texto

unfoldable pub eh_windows : Sistema → Bool
eh_windows s = eq_texto s.os (codes "windows")

unfoldable pub arquivo_do_cloudflared : Sistema → Texto
arquivo_do_cloudflared s =
    if eq_texto s.os (codes "windows")
    then (if eq_texto s.arch (codes "arm64")
        then codes "cloudflared-windows-arm64.exe"
        else codes "cloudflared-windows-amd64.exe")
    else if eq_texto s.os (codes "linux")
    then (if eq_texto s.arch (codes "arm64")
        then codes "cloudflared-linux-arm64"
        else if eq_texto s.arch (codes "arm")
        then codes "cloudflared-linux-arm"
        else if eq_texto s.arch (codes "386")
        then codes "cloudflared-linux-386"
        else codes "cloudflared-linux-amd64")
    else []

-- os.UserCacheDir, a clean path, and whether os.MkdirAll succeeds.
pub record Maquina : Type 0 where
  pub sistema : Sistema
  pub pasta_de_cache : Option Texto
  pub cria_pasta : Bool

abbrev pub separador : Sistema → Texto
separador s = if eh_windows s then codes "\\" else codes "/"

unfoldable pub nome_da_copia : Sistema → Texto
nome_da_copia s = codes "cloudflared" ++ (if eh_windows s then codes ".exe" else [])

unfoldable pub caminho_do_cloudflared : Maquina → Option Texto
unfolding nome_da_copia
caminho_do_cloudflared m = elim m.pasta_de_cache [
  | none ↦ none
  | some base ↦
      if m.cria_pasta
      then some (
          base
          ++ (separador m.sistema
              ++ (codes "greenlabs" ++ (separador m.sistema ++ nome_da_copia m.sistema))))
      else none
]

abbrev pub Arquivos : Type 0
Arquivos = Mapa (List ℕ)

-- The bytes of a file, none for one that is not there.
unfoldable pub conteudo : Texto → Arquivos → List ℕ
conteudo caminho fs = elim (lookup caminho fs) [ none ↦ [] | some bs ↦ bs ]

unfoldable pub cloudflared_baixado : Maquina → Arquivos → Texto
unfolding conteudo
cloudflared_baixado m fs = elim (caminho_do_cloudflared m) [
  | none ↦ []
  | some caminho ↦ if vazio (conteudo caminho fs) then [] else caminho
]

-- `inteira` is an end of the body at its announced length.
pub record Resposta : Type 0 where
  pub codigo_ok : Bool
  pub pedacos : List (List ℕ)
  pub inteira : Bool

-- What the network and the disk do: the answer, or none, whether each call succeeds, and how many
-- writes the disk takes.
pub record Download : Type 0 where
  pub resposta : Option Resposta
  pub abre : Bool
  pub escritas : ℕ
  pub fecha : Bool
  pub renomeia : Bool
  pub remove : Bool

pub record Baixada : Type 0 where
  pub estados : List Arquivos
  pub final : Arquivos
  pub caminho : Option Texto

abbrev pub parcial : Texto → Texto
parcial destino = destino ++ codes ".parcial"

-- io.Copy: the states behind each write, the last one, and whether there was no error.
unfoldable pub copiar_corpo :
    Texto → ℕ → List (List ℕ) → Bool → Arquivos → List Arquivos × Arquivos × Bool
unfolding conteudo
copiar_corpo t n [] inteira fs = ([], fs, inteira)
copiar_corpo t zero (p ∷ ps) inteira fs = ([], fs, false)
copiar_corpo t (suc n) (p ∷ ps) inteira fs =
    let fs1 = insert t (conteudo t fs ++ p) fs in
    let (estados, fim, certo) = copiar_corpo t n ps inteira fs1 in (fs1 ∷ estados, fim, certo)

abbrev pub parada : Arquivos → Baixada
parada fs = record { estados = []; final = fs; caminho = none }

-- os.Rename takes the place of what was at `b`.
unfoldable pub renomear : Texto → Texto → Arquivos → Arquivos
unfolding conteudo
renomear a b fs = insert b (conteudo a fs) (erase a fs)

-- From the answer on.
unfoldable pub gravar : Texto → Download → Resposta → Arquivos → Baixada
unfolding copiar_corpo renomear
gravar destino d r fs =
    let t = parcial destino in
    let aberto = insert t [] fs in
    let (estados, copiado, certo) = copiar_corpo t d.escritas r.pedacos r.inteira aberto in
    let limpo = if d.remove then erase t copiado else copiado in
    let pronto = renomear t destino copiado in
    if not d.abre
    then parada fs
    else if certo && d.fecha && d.renomeia
    then record {
      estados = aberto ∷ estados ++ (pronto ∷ []);
      final = pronto;
      caminho = some destino;
    }
    else record { estados = aberto ∷ estados ++ (limpo ∷ []); final = limpo; caminho = none }

unfoldable pub baixar_cloudflared : Maquina → Download → Arquivos → Baixada
unfolding gravar
baixar_cloudflared m d fs =
    if vazio (arquivo_do_cloudflared m.sistema)
    then parada fs
    else elim (caminho_do_cloudflared m) [
      | none ↦ parada fs
      | some destino ↦ elim d.resposta [
        | none ↦ parada fs
        | some r ↦ if r.codigo_ok then gravar destino d r fs else parada fs
      ]
    ]
