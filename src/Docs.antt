-- ===== src/Docs.antt =====
-- chain/docs/docs.go: the OpenAPI document and its console, over the router and the templates.
use aegis_mirror.Base.{Option}
use aegis_mirror.Base.Text.{Text, codes}
use aegis_mirror.Base.Effect.{Call, pure, ignore, ◌>>=◌, ◌>>◌}

abbrev pub api_file : Text
api_file = codes "/static/openapi.json"

abbrev pub index_file : Text
index_file = codes "template/index.tpl"

-- What the template is given.
pub record Console : Type 0 where
  pub title : Text
  pub url : Text

pub record Web (World : Type 0) : Type 1 where
  pub Template : Type 0
  pub Writer : Type 0
  pub FileServer : Type 0
  -- `httptemplate.ParseFS`, whose error is dropped: the template is nil then.
  pub parse_fs : Text → Call World (Option Template)
  pub execute : Option Template → Writer → Console → Call World (Unit {0})
  pub file_server : FileServer
  pub handle : Text → FileServer → Call World (Unit {0})
  pub handle_func : Text → (Writer → Call World (Unit {0})) → Call World (Unit {0})

module _ {World : Type 0} (W : Web World) where
  -- `handler`: the template is parsed once, and executed for each request.
  unfoldable pub handler : Text → Call World (W.Writer → Call World (Unit {0}))
  handler title = do
    t ← W.parse_fs index_file
    pure (λ w. ignore (W.execute t w (record { title = title; url = api_file })))

  unfoldable pub register_open_api_service : Text → Call World (Unit {0})
  unfolding handler
  register_open_api_service app_name = do
    W.handle api_file W.file_server
    h ← handler app_name
    W.handle_func (codes "/") h
