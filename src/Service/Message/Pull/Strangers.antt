-- ===== src/Service/Message/Pull/Strangers.antt =====
-- Users whom internal/service/message_service.go keeps out of a single chat.
use nexo_im.Backend.{Backend}
