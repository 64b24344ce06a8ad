-- ===== src/Examples.antt =====
-- Concrete parameters for the models, and the theorems at concrete inputs.
mod Models
mod ToyCode
mod Net
mod Server
mod Client
mod System
mod Streaming
mod Recovery
mod Window
mod Encoders
mod VideoPath
mod Disorder
mod Startup
