-- ===== src/Errors/Tests.antt =====
-- internal/jetkvm/errors.go: the classifier at concrete errors, and the theorems at them.
use jetkvm_mcp.Base.{◌≡◌, refl}
use jetkvm_mcp.Errors.{sentinel, wrap, deadline_exceeded, code_of, is}

code_of_runs : code_of (wrap (sentinel deadline_exceeded)) ≡ "timeout"
unfolding code_of is
code_of_runs = refl
