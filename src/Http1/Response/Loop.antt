-- ===== src/Http1/Response/Loop.antt =====
-- One message more of the loop in `_write_response` of echocorn/http1.py.
use echocorn.Base.{◌≡◌, refl, sym, ap, ◌∙◌, List, ◌∷◌}
use echocorn.Http1.Writer.{Env, Scope, Writer}
use echocorn.Http1.Start.{continue_, break_, raise_}
use echocorn.Http1.Response.{
  Message, finished, writer, on_message, write_response, close_response, failed_writer,
}

pub write_response-continues :
    (env : Env) (scope : Scope) (message : Message) (messages : List Message) (w w' : Writer)
    → on_message env scope message w ≡ continue_ w'
    → write_response env scope (message ∷ messages) w ≡ write_response env scope messages w'
unfolding write_response
write_response-continues env scope message messages w w' h = rw (write_response, h) refl

pub write_response-breaks :
    (env : Env) (scope : Scope) (message : Message) (messages : List Message) (w w' : Writer)
    → on_message env scope message w ≡ break_ w'
    → write_response env scope (message ∷ messages) w ≡ finished (close_response env scope w')
unfolding write_response
write_response-breaks env scope message messages w w' h = rw (write_response, h) refl

pub write_response-raises :
    (env : Env) (scope : Scope) (message : Message) (messages : List Message) (w w' : Writer)
    → on_message env scope message w ≡ raise_ w'
    → write_response env scope (message ∷ messages) w ≡ finished (failed_writer w')
unfolding write_response
write_response-raises env scope message messages w w' h = rw (write_response, h) refl

-- the writer that a last message leaves
pub last-writer :
    (env : Env) (scope : Scope) (message : Message) (messages : List Message) (w w' w'' : Writer)
    → on_message env scope message w ≡ break_ w'
    → write_response env scope (message ∷ messages) w ≡ finished w''
    → close_response env scope w' ≡ w''
last-writer env scope message messages w w' w'' h run =
    ap writer (sym (write_response-breaks env scope message messages w w' h) ∙ run)
